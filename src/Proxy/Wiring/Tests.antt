-- ===== src/Proxy/Wiring/Tests.antt =====
-- Two bridges: one to a child process, one over HTTP.
use mcprelay.Base.{◌≡◌, refl, true, false, none, some, List, [], ◌∷◌}
use mcprelay.Base.Result.{ok}
use mcprelay.Json.{undefined, str, obj, arr, prop, no_prop, item, no_item, null, get}
use mcprelay.Config.{default_config}
use mcprelay.Queue.Providers.{get_queue, get_store, close_persistence}
use mcprelay.Proxy.Metadata.{put}
use mcprelay.Proxy.Run.{UpstreamTarget, stdio_target, http_target, upstream_side}
use mcprelay.Proxy.Lifecycle.{exited, stdin_ended, happen, happen_client}
use mcprelay.Proxy.Session.{create_session_context, record_tool_inventory}
use mcprelay.Proxy.Links.{
  child_happens, create_upstream_link, set_close_relay, connect_link, send_batch,
}
use mcprelay.Proxy.Wiring.{
  Sdk, Notification, BridgeState, run_acts, relay_client_batch, relay_upstream_batch,
  relay_client_notification, relay_upstream_notification, has_relay, relay_upstream_request,
  keep_inventory, progress_token_of, relayed_progress, batch_unsupported,
}
use mcprelay.Proxy.Wiring.Start.{
  Occurrence, link_happens, client_happens, opened, client_batch, upstream_batch, client_notifies,
  upstream_notifies, upstream_asks, passed_through, uses_queue, move_link, move_client, wired_link,
  opened_bridge, start_bridge, close_bridge, occur, occur_all,
}
use mcprelay.Proxy.Wiring.Closing.{IsEnding, start_bridge-IsEnding}

wiring_code : Unit {0}
unfolding get put get_queue get_store close_persistence happen happen_client create_session_context
    record_tool_inventory create_upstream_link set_close_relay connect_link send_batch run_acts
    relay_client_batch relay_upstream_batch relay_client_notification relay_upstream_notification
    has_relay relay_upstream_request keep_inventory progress_token_of relayed_progress move_link
    move_client start_bridge close_bridge occur occur_all
wiring_code = tt

abbrev sdk : Sdk
sdk = record {
  connect_failure = none;
  client_chains = true;
  server_chains = false;
  close_tells = true;
  server_version = none;
  capabilities = none;
  protocol_version = none;
  instructions = none;
  serialize = λ n. n.method;
}

abbrev child : UpstreamTarget
child = stdio_target "node" ("echo.js" ∷ [])

abbrev endpoint : UpstreamTarget
endpoint = http_target "https://host/mcp" []

abbrev bridge_to : UpstreamTarget → BridgeState
bridge_to target = opened_bridge sdk "1.0.0" (connect_link true (wired_link target))

abbrev note : Notification
note = record { method = "notifications/message"; params = undefined }

abbrev progress : Notification
progress = record { method = "notifications/progress"; params = undefined }

abbrev traffic : List Occurrence
traffic =
    upstream_asks (record { method = "roots/list"; params = undefined })
    ∷ opened
    ∷ client_batch "[1]"
    ∷ upstream_batch "[2]"
    ∷ upstream_notifies note
    ∷ upstream_notifies progress
    ∷ client_notifies note none
    ∷ upstream_asks (record { method = "elicitation/create"; params = undefined })
    ∷ upstream_asks (record { method = "tasks/get"; params = undefined })
    ∷ passed_through "tools/list" (prop "tools" (arr (item null (item null no_item))) no_prop)
    ∷ uses_queue none
    ∷ []

abbrev child_after : BridgeState
child_after = occur_all sdk default_config traffic (bridge_to child)

abbrev endpoint_after : BridgeState
endpoint_after = occur_all sdk default_config traffic (bridge_to endpoint)

started_child : start_bridge sdk "1.0.0" child ≡ ok (bridge_to child)
unfolding wiring_code
started_child = refl

runs :
    (child_after.client_raw ≡ "[2]" ∷ "notifications/message" ∷ [])
    × (child_after.link.raw ≡ "[1]" ∷ [])
    × (child_after.client_asked ≡ record { method = "elicitation/create"; params = undefined } ∷ [])
    × (child_after.session.tool_count ≡ some 2)
    × (endpoint_after.client_raw ≡ batch_unsupported ∷ "notifications/message" ∷ [])
    × (endpoint_after.link.raw ≡ [])
    × ((close_bridge sdk child_after).persistence.closed ≡ child_after.persistence.opened)
unfolding wiring_code
runs = (refl, refl, refl, refl, refl, refl, refl)

-- The child exits before the client's stdin ends.
abbrev ends : List Occurrence
ends = link_happens (child_happens (exited false)) ∷ client_happens stdin_ended ∷ []

names_first : (occur_all sdk default_config ends (bridge_to child)).closed ≡ some upstream_side
unfolding wiring_code
names_first = refl

-- The token is that of `_meta`; progress goes out under the token of the client.
tokens :
    (progress_token_of (obj (prop "_meta" (obj (prop "progressToken" (str "t") no_prop)) no_prop))
      ≡ str "t")
    × ((relayed_progress (prop "progress" null no_prop) (str "t")).params
        ≡ obj (prop "progress" null (prop "progressToken" (str "t") no_prop)))
unfolding wiring_code
tokens = (refl, refl)

start_bridge-IsEnding_example : IsEnding sdk default_config ends child_after
start_bridge-IsEnding_example =
    start_bridge-IsEnding sdk default_config "1.0.0" child traffic ends (bridge_to child) refl
      started_child
