-- ===== src/Identity.antt =====
-- src/identity/identity.ts: the credential in a call's `_meta`, the identity that it stands for, and
-- its removal before the call is relayed. A credential is the list of its code points.
pub mod Laws
mod Tests
use mcprelay.Base.{
  ℕ, ◌+◌, String, Bool, true, false, not, ◌&&◌, ◌||◌, Option, none, some, List, [], ◌∷◌, ◌==◌,
  nat_eq, leb, all, find, codes, if◌then◌else◌,
}
use mcprelay.Base.Result.{Result, err, ok}
use mcprelay.Json.{Value, str, obj, Fields, no_prop, prop, get_value}
use mcprelay.Runtime.{Runtime}

pub record IdentityKey : Type 0 where
  pub key : String
  pub identity : String

pub record IdentitySettings : Type 0 where
  pub profile : String
  pub keys : List IdentityKey

-- What `\s` reads and `trim` removes.
abbrev pub is_space : ℕ → Bool
is_space c =
    (leb 9 c && leb c 13)
    || nat_eq c 32
    || nat_eq c 0xa0
    || nat_eq c 0x1680
    || (leb 0x2000 c && leb c 0x200a)
    || nat_eq c 0x2028
    || nat_eq c 0x2029
    || nat_eq c 0x202f
    || nat_eq c 0x205f
    || nat_eq c 0x3000
    || nat_eq c 0xfeff

-- What `.` reads.
abbrev pub is_dot : ℕ → Bool
is_dot c = not (nat_eq c 10 || nat_eq c 13 || nat_eq c 0x2028 || nat_eq c 0x2029)

abbrev pub skip_spaces : List ℕ → List ℕ
skip_spaces [] = []
skip_spaces (c ∷ cs) = let rest = skip_spaces cs in if is_space c then rest else c ∷ cs

-- The text without the spaces at its end.
abbrev pub trim_end : List ℕ → List ℕ
trim_end [] = []
trim_end (c ∷ cs) = elim (trim_end cs) [
  | [] ↦ if is_space c then [] else c ∷ []
  | d ∷ ds ↦ c ∷ d ∷ ds
]

-- A letter of the pattern under the flag `i`: the lower case letter or its capital.
abbrev reads_letter : ℕ → ℕ → Bool
reads_letter letter c = nat_eq c letter || nat_eq (c + 32) letter

-- What stands behind a word, read without case.
skip_word : List ℕ → List ℕ → Option (List ℕ)
skip_word [] cs = some cs
skip_word (l ∷ ls) [] = none
skip_word (l ∷ ls) (c ∷ cs) = if reads_letter l c then skip_word ls cs else none

-- `\s+(.+)$`, the spaces read as far as they go.
credential_after : List ℕ → Option (List ℕ)
credential_after [] = none
credential_after (c ∷ cs) = if is_space c then present (skip_spaces cs) else none
  where
    present : List ℕ → Option (List ℕ)
    present [] = none
    present (d ∷ ds) = if all is_dot (d ∷ ds) then some (d ∷ ds) else none

-- BEARER.exec(value.trim())?.[1]
unfoldable pub bearer : String → Option (List ℕ)
unfolding skip_word credential_after
bearer value = elim (skip_word (codes "bearer") (trim_end (skip_spaces (codes value)))) [
  | none ↦ none
  | some rest ↦ credential_after rest
]

unfoldable pub credential_from_meta : Value → Option (List ℕ)
unfolding bearer
credential_from_meta (obj fs) = elim (get_value "authorization" fs) [
  | str value ↦ bearer value
  | _ ↦ none
]
credential_from_meta meta = none

abbrev pub codes_eq : List ℕ → List ℕ → Bool
codes_eq [] [] = true
codes_eq (x ∷ xs) (y ∷ ys) = nat_eq x y && codes_eq xs ys
codes_eq _ _ = false

abbrev pub key_equals : List ℕ → IdentityKey → Bool
key_equals credential entry = codes_eq (codes entry.key) credential

-- The error is the reason of the refusal.
unfoldable pub resolve_credential :
    IdentitySettings → List IdentityKey → List ℕ → Result String String
resolve_credential settings [] credential = ok settings.profile
resolve_credential settings (k ∷ ks) credential = elim (find (key_equals credential) (k ∷ ks)) [
  | none ↦ err "unrecognized api key"
  | some entry ↦ ok entry.identity
]

unfoldable pub resolve_identity : IdentitySettings → Value → Result String String
unfolding credential_from_meta resolve_credential
resolve_identity settings meta = elim (credential_from_meta meta) [
  | none ↦ ok settings.profile
  | some credential ↦ resolve_credential settings settings.keys credential
]

-- An assignment to `__proto__` sets the prototype of the new object and adds no property.
unfoldable pub strip_credential_fields : Runtime → Fields → Fields
strip_credential_fields rt no_prop = no_prop
strip_credential_fields rt (prop key value meta) =
    let stripped = strip_credential_fields rt meta in
    if rt.to_lower key == "authorization"
    then stripped
    else if key == "__proto__"
    then stripped
    else prop key value stripped
