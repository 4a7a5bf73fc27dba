-- ===== src/Identity/Laws.antt =====
-- Who is refused, and what is removed.
use mathlib.Core.Path.{subst}
use mcprelay.Base.{
  ℕ, String, ◌≡◌, ◌≢◌, refl, sym, ap, ◌∙◌, ◌⊎◌, inl, inr, true, ◌||◌, Option, none, some, List, [],
  ◌∷◌, ◌==◌, eq_iff, arith, All, codes, find, Bool-cases, Option-cases, and_true, nat_eq,
  if◌then◌else◌,
}
use mcprelay.Base.Result.{Result, err, ok}
use mcprelay.Json.{Value, Fields, no_prop, prop, get}
use mcprelay.Runtime.{Runtime}
use mcprelay.Identity.{
  IdentityKey, IdentitySettings, codes_eq, key_equals, credential_from_meta, resolve_credential,
  resolve_identity, strip_credential_fields,
}

codes_eq_refl : (xs : List ℕ) → codes_eq xs xs ≡ true
codes_eq_refl [] = refl
codes_eq_refl (x ∷ xs) = ground (arith, codes_eq_refl xs)

codes_eq_sound : (xs ys : List ℕ) → codes_eq xs ys ≡ true → xs ≡ ys
codes_eq_sound [] [] h = refl
codes_eq_sound [] (y ∷ ys) h = absurd cc
codes_eq_sound (x ∷ xs) [] h = absurd cc
codes_eq_sound (x ∷ xs) (y ∷ ys) h =
    let (first, rest) = and_true (nat_eq x y) (codes_eq xs ys) h in
    ground (arith, codes_eq_sound xs ys rest)

-- A credential is given, keys are configured, and none of them is that credential.
abbrev pub IsRefused : IdentitySettings → Value → Type 0
IsRefused settings meta =
    (credential : List ℕ) × (credential_from_meta meta ≡ some credential)
    × (settings.keys ≢ [])
    × All (λ entry. codes entry.key ≢ credential) settings.keys

-- The profile where no credential is given or no key is configured, or a key's identity.
abbrev pub IsAccepted : IdentitySettings → Value → String → Type 0
IsAccepted settings meta identity =
    (((credential_from_meta meta ≡ none) ⊎ (settings.keys ≡ [])) × (identity ≡ settings.profile))
    ⊎ ((entry : IdentityKey) × (credential_from_meta meta ≡ some (codes entry.key))
        × (find (key_equals (codes entry.key)) settings.keys ≡ some entry)
        × (identity ≡ entry.identity))

find-none :
    (credential : List ℕ) (ks : List IdentityKey)
    → find (key_equals credential) ks ≡ none
    → All (λ entry. codes entry.key ≢ credential) ks
find-none credential [] h = tt
find-none credential (k ∷ ks) h = elim (Bool-cases (key_equals credential k)) [
  | inl hit ↦ absurd (ground (arith, hit, h))
  | inr miss ↦ (
    λ same. absurd (
        ground (
          arith,
          miss,
          sym (ap (λ xs. codes_eq (codes k.key) xs) same) ∙ codes_eq_refl (codes k.key),
        )),
    find-none credential ks (ground (arith, miss, h)),
  )
]

find-some :
    (credential : List ℕ) (ks : List IdentityKey) (entry : IdentityKey)
    → find (key_equals credential) ks ≡ some entry
    → codes entry.key ≡ credential
find-some credential [] entry h = absurd cc
find-some credential (k ∷ ks) entry h = elim (Bool-cases (key_equals credential k)) [
  | inl hit ↦
      ap (λ (e : IdentityKey). codes e.key) (sym (unwrap k entry (ground (arith, hit, h))))
      ∙ codes_eq_sound (codes k.key) credential hit
  | inr miss ↦ find-some credential ks entry (ground (arith, miss, h))
]
  where
    unwrap : (x y : IdentityKey) → ◌≡◌ {A = Option IdentityKey} (some x) (some y) → x ≡ y
    unwrap x y h = cc

-- What a resolution says: refused with the one reason there is, or accepted.
unfoldable pub IsResolution : IdentitySettings → Value → Result String String → Type 0
IsResolution settings meta (err reason) =
    (reason ≡ "unrecognized api key") × IsRefused settings meta
IsResolution settings meta (ok identity) = IsAccepted settings meta identity

with_keys :
    (settings : IdentitySettings) (meta : Value) (credential : List ℕ)
    → credential_from_meta meta ≡ some credential
    → (keys : List IdentityKey) → settings.keys ≡ keys
    → IsResolution settings meta (resolve_credential settings keys credential)
unfolding IsResolution resolve_credential
with_keys settings meta credential given [] e = inl (inr e, refl)
with_keys settings meta credential given (k ∷ ks) e =
    elim (Option-cases (find (key_equals credential) (k ∷ ks))) [
      | inl none_found ↦
          let refused : resolve_credential settings (k ∷ ks) credential
              ≡ err "unrecognized api key" =
            ground (arith, none_found) in
          subst (IsResolution settings meta) (sym refused) (
            refl,
            (
              credential,
              given,
              λ nothing. absurd (ground (arith, e, nothing)),
              subst (All (λ entry. codes entry.key ≢ credential)) (sym e)
                  (find-none credential (k ∷ ks) none_found),
            ),
          )
      | inr (entry, found) ↦
          let same = find-some credential (k ∷ ks) entry found in
          let accepted : resolve_credential settings (k ∷ ks) credential ≡ ok entry.identity =
            ground (arith, found) in
          subst (IsResolution settings meta) (sym accepted) (
            inr (
              entry,
              given ∙ ap (λ (c : List ℕ). some c) (sym same),
              subst (λ c. find (key_equals c) settings.keys ≡ some entry) (sym same)
                  (ap (find (key_equals credential)) e ∙ found),
              refl,
            ))
    ]

-- A call is refused exactly if it carries a credential, keys are configured, and none of them is
-- that credential; otherwise its identity is that of the first key that is, or the profile's where
-- no credential is carried or no key is configured.
pub resolve_identity-IsResolution :
    (settings : IdentitySettings) (meta : Value)
    → IsResolution settings meta (resolve_identity settings meta)
unfolding IsResolution resolve_identity
resolve_identity-IsResolution settings meta = elim (Option-cases (credential_from_meta meta)) [
  | inl missing ↦
      let profile : resolve_identity settings meta ≡ ok settings.profile =
        ground (arith, missing) in
      subst (IsResolution settings meta) (sym profile) (inl (inl missing, refl))
  | inr (credential, given) ↦
      let resolved : resolve_identity settings meta
          ≡ resolve_credential settings settings.keys credential =
        rw (given, resolve_identity) refl in
      subst (IsResolution settings meta) (sym resolved)
        (with_keys settings meta credential given settings.keys refl)
]

-- Of the metadata, exactly the credential fields are removed before the relay (and `__proto__`, which
-- an assignment cannot add): every other field has its value.
pub get-strip_credential_fields :
    (rt : Runtime) (key : String) (meta : Fields)
    → get key (strip_credential_fields rt meta)
      ≡ (if rt.to_lower key == "authorization" || key == "__proto__" then none else get key meta)
unfolding get strip_credential_fields
get-strip_credential_fields rt key no_prop = ground arith
get-strip_credential_fields rt key (prop j value meta) =
    ground (arith, eq_iff j key, eq_iff key j, get-strip_credential_fields rt key meta)
