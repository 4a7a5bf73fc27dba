-- ===== src/Proxy/Metadata/Laws.antt =====
-- What is relayed of a call's parameters.
use mcprelay.Base.{String, ◌||◌, Option, none, some, ◌==◌, if◌then◌else◌}
use mcprelay.Json.{Value, str, obj, Fields, no_prop, prop, get}
use mcprelay.Runtime.{Runtime}

-- What the relayed metadata hold under a key.
abbrev pub relayed_field : Runtime → String → Fields → String → Option Value
relayed_field rt id meta key =
    if "mcprelay" == key
    then some (obj (prop "correlation_id" (str id) no_prop))
    else if rt.to_lower key == "authorization" || key == "__proto__"
    then none
    else get key meta
