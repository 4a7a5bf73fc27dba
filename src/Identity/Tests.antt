-- ===== src/Identity/Tests.antt =====
-- Credentials on concrete calls.
use mcprelay.Base.{String, ◌≡◌, refl, ◌||◌, none, some, [], ◌∷◌, ◌==◌, codes, if◌then◌else◌}
use mcprelay.Base.Result.{err, ok}
use mcprelay.Json.{Fields, str, null, obj, prop, no_prop, get}
use mcprelay.Runtime.Sample.{sample}
use mcprelay.Identity.{
  IdentitySettings, bearer, credential_from_meta, resolve_credential, resolve_identity,
  strip_credential_fields,
}
use mcprelay.Identity.Laws.{
  IsResolution, resolve_identity-IsResolution, get-strip_credential_fields,
}

identity_code : Unit {0}
unfolding bearer credential_from_meta resolve_credential resolve_identity strip_credential_fields
    get
identity_code = tt

abbrev settings : IdentitySettings
settings = record {
  profile = "local";
  keys = record { key = "k1"; identity = "ann" } ∷ record { key = "k2"; identity = "bob" } ∷ [];
}

abbrev meta_with : String → Fields
meta_with credential = prop "authorization" (str credential) (prop "other" null no_prop)

bearer_lem :
    (bearer "  bEARER   k2 " ≡ some (codes "k2"))
    × (bearer "Bearerk2" ≡ none)
    × (bearer "Bearer  " ≡ none)
unfolding identity_code
bearer_lem = (refl, refl, refl)

resolves :
    (resolve_identity settings (obj (meta_with "Bearer k2")) ≡ ok "bob")
    × (resolve_identity settings (obj (meta_with "Bearer k3")) ≡ err "unrecognized api key")
    × (resolve_identity settings (obj (meta_with "k3")) ≡ ok "local")
unfolding identity_code
resolves = (refl, refl, refl)

resolve_identity-IsResolution_example :
    IsResolution settings
      (obj (meta_with "Bearer k2"))
      (resolve_identity settings (obj (meta_with "Bearer k2")))
resolve_identity-IsResolution_example =
    resolve_identity-IsResolution settings (obj (meta_with "Bearer k2"))

get-strip_credential_fields_example :
    get "other" (strip_credential_fields sample (meta_with "Bearer k2")) ≡ (
      if "other" == "authorization" || "other" == "__proto__"
      then none
      else get "other" (meta_with "Bearer k2"))
get-strip_credential_fields_example =
    get-strip_credential_fields sample "other" (meta_with "Bearer k2")
