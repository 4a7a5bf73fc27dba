-- ===== src/Proxy/Session.antt =====
-- src/proxy/session.ts: what the relay keeps of the session with its upstream.
use mcprelay.Base.{ℕ, suc, String, Option, none, some, or_default}
use mcprelay.Json.{Value, Items, arr, obj, no_prop, no_item, item}

pub record Implementation : Type 0 where
  pub name : String
  pub version : String

pub record SessionContext : Type 0 where
  pub server : Implementation
  pub capabilities : Value
  pub protocol_revision : Option String
  pub instructions : Option String
  pub tool_count : Option ℕ

unfoldable pub create_session_context :
    Option Implementation
    → Option Value
    → Option String
    → Option String
    → Implementation
    → SessionContext
create_session_context server capabilities protocol_revision instructions fallback_server = record {
  server = or_default server fallback_server;
  capabilities = or_default capabilities (obj no_prop);
  protocol_revision = protocol_revision;
  instructions = instructions;
  tool_count = none;
}

abbrev pub count_items : Items → ℕ
count_items no_item = 0
count_items (item v vs) = suc (count_items vs)

-- `tools` is undefined where the result has no such field.
unfoldable pub record_tool_inventory : Option Value → SessionContext → SessionContext
record_tool_inventory (some (arr tools)) context = record context {
  tool_count = some (count_items tools);
}
record_tool_inventory tools context = context
