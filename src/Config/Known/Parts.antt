-- ===== src/Config/Known/Parts.antt =====
-- What the readers of the sections find out about the keys, down to the last mapping.
use mcprelay.Base.{
  ℕ, suc, refl, inl, inr, String, not, none, some, Option, List, [], ◌∷◌, ◌++◌, All, find,
  Option-cases,
}
use mcprelay.Base.Ensures.{Ensures, threw, gave, Ensures-bind, Ensures-after}
use mcprelay.Json.{Value, obj, arr, items, entries, keys, get}
use mcprelay.Runtime.{Runtime}
use mcprelay.Identity.{IdentityKey, IdentitySettings}
use mcprelay.Policy.Rules.{
  is_policy_key, is_rule_key, parse_rule, parse_rules, parse_rule_list, parse_fields,
  parse_policy_config,
}
use mcprelay.Config.{ToolOverride, ReliabilityConfig, QueueConfig, StoreConfig}
use mcprelay.Config.Readers.{set_given, read_given}
use mcprelay.Config.Readers.Ensured.{IfGiven}
use mcprelay.Config.Reliability.{
  parse_retry_fields, parse_per_tool_override, assign, apply_overrides_of, apply_per_tool,
  apply_replay, apply_reliability,
}
use mcprelay.Config.Sections.{
  apply_sqlite_path, apply_sqlite_section, apply_rabbitmq_section, apply_queue_section, read_key,
  read_keys, read_key_list, apply_identity, apply_upstream,
}
use mcprelay.Config.Known.Keys.{
  IsMapping, IsSqlite, IsRetry, IsToolEntry, IsToolTable, IsReliability, IsQueue, IsStore, IsListOf,
  IsIdentity, IsPolicy, IsUpstream, one_of, All-known, Ensures-const, Ensures-implied, Ensures-each,
  Ensures-IsSection, Ensures-IsMapping, Ensures-given, Ensures-reading,
}

module _ (rt : Runtime) where
  IsRetry-Ensures :
      (raw : Value) (label : String) → Ensures (λ _. IsRetry raw) (parse_retry_fields rt raw label)
  unfolding parse_retry_fields
  IsRetry-Ensures raw label = Ensures-IsMapping raw _ _ _ _

  IsToolEntry-Ensures :
      (raw : Value) (label : String)
      → Ensures (λ _. IsToolEntry raw) (parse_per_tool_override rt raw label)
  unfolding parse_per_tool_override
  IsToolEntry-Ensures raw label =
      Ensures-IsSection raw _ _ _ _ (λ fs. IfGiven IsRetry (get "retry" fs))
        λ fs. Ensures-after (read_given "timeout_ms" fs _) λ _.
          Ensures-after (read_given "idempotent" fs _) λ _.
            Ensures-after (read_given "effects" fs _) λ _.
              Ensures-bind (Ensures-reading "retry" fs _ IsRetry (λ v. IsRetry-Ensures v _))
                (λ _ h. Ensures-const _ h)

  table-Ensures :
      (label : String) (more : List (String × Value)) (target : List (String × ToolOverride))
      → Ensures
          (λ _. All (λ (e : String × Value). IsToolEntry e.1) more)
          (apply_overrides_of rt label more target)
  unfolding apply_overrides_of
  table-Ensures label [] target = gave target tt
  table-Ensures label ((tool, raw) ∷ more) target =
      Ensures-each (IsToolEntry-Ensures raw _)
        (λ o. table-Ensures label more (assign tool o target))

  IsToolTable-Ensures :
      (raw : Value) (label : String) (target : List (String × ToolOverride))
      → Ensures (λ _. IsToolTable raw) (apply_per_tool rt raw label target)
  unfolding apply_per_tool
  IsToolTable-Ensures (obj fs) label target =
      Ensures-implied (table-Ensures label (entries fs) target) (λ h. (fs, refl, h))
  IsToolTable-Ensures _ label target = threw _

  pub IsReliability-Ensures :
      (raw : Value) (path : String) (target : ReliabilityConfig)
      → Ensures (λ _. IsReliability raw) (apply_reliability rt raw path target)
  unfolding apply_reliability apply_replay
  IsReliability-Ensures raw path target =
      Ensures-IsSection raw _ _ _ _
        (λ fs.
          IfGiven IsRetry (get "retry" fs)
          × IfGiven (IsMapping (one_of ("dedup_window" ∷ []))) (get "replay" fs)
          × IfGiven IsToolTable (get "per_tool" fs))
        λ fs. Ensures-after (set_given "timeout_ms" fs _ _) λ _.
          Ensures-after (set_given "idempotent_default" fs _ _) λ _.
            Ensures-bind (Ensures-reading "retry" fs _ IsRetry (λ v. IsRetry-Ensures v _))
              λ _ retry.
                Ensures-bind
                  (Ensures-given "replay" fs _ _ (IsMapping (one_of ("dedup_window" ∷ [])))
                    (λ v. Ensures-IsMapping v _ _ _ _))
                  λ _ replay.
                    Ensures-bind
                      (Ensures-given "per_tool" fs _ _ IsToolTable (λ v. IsToolTable-Ensures v _ _))
                      (λ _ per_tool. Ensures-const _ (retry, replay, per_tool))

  IsSqlite-Ensures :
      (raw : Value) (label target : String)
      → Ensures (λ _. IsSqlite raw) (apply_sqlite_path rt raw label target)
  unfolding apply_sqlite_path
  IsSqlite-Ensures raw label target = Ensures-IsMapping raw _ _ _ _

  pub IsQueue-Ensures :
      (url_protocol : String → Option String) (raw : Value) (label : String) (target : QueueConfig)
      → Ensures (λ _. IsQueue raw) (apply_queue_section rt url_protocol raw label target)
  unfolding apply_queue_section apply_rabbitmq_section
  IsQueue-Ensures url_protocol raw label target =
      Ensures-IsSection raw _ _ _ _
        (λ fs.
          IfGiven IsSqlite (get "sqlite" fs)
          × IfGiven (IsMapping (one_of ("url" ∷ "exchange" ∷ "queue" ∷ []))) (get "rabbitmq" fs))
        λ fs. Ensures-after _ λ _.
          Ensures-bind (Ensures-given "sqlite" fs _ _ IsSqlite (λ v. IsSqlite-Ensures v _ _))
            λ _ sqlite.
              Ensures-bind
                (Ensures-given "rabbitmq" fs _ _
                  (IsMapping (one_of ("url" ∷ "exchange" ∷ "queue" ∷ [])))
                  (λ v. Ensures-IsMapping v _ _ _ _))
                (λ _ broker. Ensures-const _ (sqlite, broker))

  pub IsStore-Ensures :
      (raw : Value) (label : String) (target : StoreConfig)
      → Ensures (λ _. IsStore raw) (apply_sqlite_section rt raw label target)
  unfolding apply_sqlite_section
  IsStore-Ensures raw label target =
      Ensures-IsSection raw _ _ _ _ (λ fs. IfGiven IsSqlite (get "sqlite" fs))
        λ fs. Ensures-after _ λ _.
          Ensures-bind (Ensures-given "sqlite" fs _ _ IsSqlite (λ v. IsSqlite-Ensures v _ _))
            (λ _ sqlite. Ensures-const _ sqlite)

  pub IsUpstream-Ensures :
      (raw : Value) (label : String) (target : List (String × String))
      → Ensures (λ _. IsUpstream raw) (apply_upstream rt raw label target)
  unfolding apply_upstream
  IsUpstream-Ensures raw label target =
      Ensures-IsSection raw _ _ _ _
        (λ fs. IfGiven (IsMapping (one_of ("headers" ∷ []))) (get "http" fs))
        λ fs.
          Ensures-given "http" fs _ _ (IsMapping (one_of ("headers" ∷ [])))
            (λ v. Ensures-IsMapping v _ _ _ _)

  key-Ensures :
      (label : String) (parsed : List IdentityKey) (raw : Value)
      → Ensures (λ _. IsMapping (one_of ("key" ∷ "identity" ∷ [])) raw) (read_key label parsed raw)
  unfolding read_key
  key-Ensures label parsed raw = Ensures-IsMapping raw _ _ _ _

  keys-Ensures :
      (label : String) (index : ℕ) (raws : List Value) (parsed : List IdentityKey)
      → Ensures
          (λ _. All (λ v. IsMapping (one_of ("key" ∷ "identity" ∷ [])) v) raws)
          (read_keys rt label index raws parsed)
  unfolding read_keys
  keys-Ensures label index [] parsed = gave parsed tt
  keys-Ensures label index (raw ∷ raws) parsed =
      Ensures-each (key-Ensures _ parsed raw)
        (λ key. keys-Ensures label (suc index) raws (parsed ++ key ∷ []))

  key_list-Ensures :
      (label : String) (raw : Value)
      → Ensures (λ _. IsListOf (one_of ("key" ∷ "identity" ∷ [])) raw) (read_key_list rt label raw)
  key_list-Ensures label (arr vs) =
      Ensures-implied (keys-Ensures label 0 (items vs) []) (λ h. (vs, refl, h))
  key_list-Ensures label _ = threw _

  pub IsIdentity-Ensures :
      (raw : Value) (label : String) (target : IdentitySettings)
      → Ensures (λ _. IsIdentity raw) (apply_identity rt raw label target)
  unfolding apply_identity
  IsIdentity-Ensures raw label target =
      Ensures-IsSection raw _ _ _ _
        (λ fs. IfGiven (IsListOf (one_of ("key" ∷ "identity" ∷ []))) (get "keys" fs))
        λ fs. Ensures-after _ λ _.
          Ensures-bind
            (Ensures-given "keys" fs _ _ (IsListOf (one_of ("key" ∷ "identity" ∷ [])))
              (key_list-Ensures label))
            (λ _ keys. Ensures-const _ keys)

  rule-Ensures :
      (raw : Value) (label : String)
      → Ensures (λ _. IsMapping is_rule_key raw) (parse_rule rt raw label)
  unfolding parse_rule
  rule-Ensures (obj fs) label = elim (Option-cases (find (λ k. not (is_rule_key k)) (keys fs))) [
    | inl clean ↦
        rw (clean, parse_rule)
          (Ensures-const _ (fs, refl, All-known is_rule_key (keys fs) clean, tt))
    | inr (k, strange) ↦ rw (strange, parse_rule) (threw _)
  ]
  rule-Ensures _ label = threw _

  rules-Ensures :
      (label : String) (index : ℕ) (raws : List Value)
      → Ensures (λ _. All (λ v. IsMapping is_rule_key v) raws) (parse_rules rt label index raws)
  unfolding parse_rules
  rules-Ensures label index [] = gave [] tt
  rules-Ensures label index (raw ∷ raws) = Ensures-bind (rule-Ensures raw _) λ _ first.
      Ensures-bind (rules-Ensures label (suc index) raws) λ rules rest. gave _ (first, rest)

  rule_list-Ensures :
      (label : String) (found : Option Value)
      → Ensures (λ _. IfGiven (IsListOf is_rule_key) found) (parse_rule_list rt label found)
  unfolding parse_rule_list
  rule_list-Ensures label none = gave [] tt
  rule_list-Ensures label (some (arr vs)) =
      Ensures-implied (rules-Ensures label 0 (items vs)) (λ h. (vs, refl, h))
  rule_list-Ensures label (some _) = threw _

  pub IsPolicy-Ensures :
      (raw : Value) (label : String)
      → Ensures (λ _. IsPolicy raw) (parse_policy_config rt raw label)
  unfolding parse_policy_config parse_fields
  IsPolicy-Ensures (obj fs) label =
      elim (Option-cases (find (λ k. not (is_policy_key k)) (keys fs))) [
        | inl clean ↦
            rw (clean, parse_policy_config)
              (Ensures-after _ λ _.
                Ensures-bind (rule_list-Ensures label (get "rules" fs))
                  λ rules h. gave _ (fs, refl, All-known is_policy_key (keys fs) clean, h))
        | inr (k, strange) ↦ rw (strange, parse_policy_config) (threw _)
      ]
  IsPolicy-Ensures _ label = threw _
