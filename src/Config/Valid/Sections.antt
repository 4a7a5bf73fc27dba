-- ===== src/Config/Valid/Sections.antt =====
-- What the readers of `queue`, `store`, `identity` and `redaction` ensure.
use mcprelay.Base.{
  ℕ, suc, ◌≡◌, ◌≢◌, refl, ◌⊎◌, inr, String, true, false, Option, none, List, [], ◌∷◌, ◌++◌, ◌==◌,
  arith, All, All-append, any,
}
use mcprelay.Base.Ensures.{
  Ensures, threw, gave, Ensures-if, Ensures-bind, Ensures-after, Ensures-try_map,
}
use mcprelay.Base.Table.{select, IsKeyed}
use mcprelay.Base.Table.Keyed.{IsKeyed-append}
use mcprelay.Json.{Value, str, arr, items, get_value}
use mcprelay.Runtime.{Runtime}
use mcprelay.Identity.{IdentityKey, IdentitySettings}
use mcprelay.Config.{RabbitMqConfig, QueueConfig, StoreConfig}
use mcprelay.Config.Readers.{set_given}
use mcprelay.Config.Readers.Ensured.{Ensures-set, Ensures-text}
use mcprelay.Config.Sections.{
  apply_sqlite_path, apply_sqlite_section, is_amqp_url, require_amqp_url, apply_rabbitmq_section,
  apply_queue_section, read_key, read_keys, read_key_list, apply_identity, read_patterns,
  apply_redaction,
}

-- The default, or a URL with one of the two protocols.
abbrev IsBrokerUrl : (String → Option String) → String → Type 0
IsBrokerUrl url_protocol url = (url ≡ "amqp://localhost") ⊎ (is_amqp_url url_protocol url ≡ true)

pub record IsQueue (url_protocol : String → Option String) (q : QueueConfig) : Type 0 where
  pub path : q.sqlite_path ≢ ""
  pub url : IsBrokerUrl url_protocol q.broker.url
  pub exchange : q.broker.exchange ≢ ""
  pub queue : q.broker.queue ≢ ""

abbrev pub IsStore : StoreConfig → Type 0
IsStore s = s.sqlite_path ≢ ""

abbrev pub key_text : IdentityKey → String
key_text k = k.key

abbrev pub IsFilled : IdentityKey → Type 0
IsFilled k = (k.key ≢ "") × (k.identity ≢ "")

-- No key is empty, and none is there twice.
pub record IsIdentity (i : IdentitySettings) : Type 0 where
  pub profile : i.profile ≢ ""
  pub filled : All IsFilled i.keys
  pub distinct : IsKeyed key_text i.keys

path-Ensures :
    (rt : Runtime) (raw : Value) (label target : String)
    → target ≢ ""
    → Ensures (λ s. s ≢ "") (apply_sqlite_path rt raw label target)
unfolding apply_sqlite_path
path-Ensures rt raw label target h =
    Ensures-after _ λ fs. Ensures-set "path" fs _ _ h (λ v. Ensures-text v _)

pub IsStore-Ensures :
    (rt : Runtime) (raw : Value) (label : String) (s : StoreConfig)
    → IsStore s
    → Ensures IsStore (apply_sqlite_section rt raw label s)
unfolding apply_sqlite_section
IsStore-Ensures rt raw label s h = Ensures-after _ λ fs.
    Ensures-after (set_given "provider" fs _ _) λ _.
      Ensures-bind (Ensures-set "sqlite" fs _ _ h (λ v. path-Ensures rt v _ s.sqlite_path h))
        λ path k. Ensures-after (set_given "retention_days" fs _ _) λ days. gave _ k

module _ (url_protocol : String → Option String) where
  url-Ensures :
      (label : String) (v : Value)
      → Ensures (IsBrokerUrl url_protocol) (require_amqp_url url_protocol label v)
  url-Ensures label (str s) =
      Ensures-if (is_amqp_url url_protocol s) (λ h. gave s (inr h)) (λ h. threw _)
  url-Ensures label _ = threw _

  abbrev IsBroker : RabbitMqConfig → Type 0
  IsBroker b = IsBrokerUrl url_protocol b.url × (b.exchange ≢ "") × (b.queue ≢ "")

  IsBroker-Ensures :
      (raw : Value) (label : String) (b : RabbitMqConfig)
      → IsBroker b
      → Ensures IsBroker (apply_rabbitmq_section url_protocol raw label b)
  unfolding apply_rabbitmq_section
  IsBroker-Ensures raw label b (hu, he, hq) = Ensures-after _ λ fs.
      Ensures-bind (Ensures-set "url" fs _ _ hu (λ v. url-Ensures label v)) λ url ku.
        Ensures-bind (Ensures-set "exchange" fs _ _ he (λ v. Ensures-text v _)) λ exchange ke.
          Ensures-bind (Ensures-set "queue" fs _ _ hq (λ v. Ensures-text v _))
            λ queue kq. gave _ (ku, ke, kq)

  pub IsQueue-Ensures :
      (rt : Runtime) (raw : Value) (label : String) (q : QueueConfig)
      → IsQueue url_protocol q
      → Ensures (IsQueue url_protocol) (apply_queue_section rt url_protocol raw label q)
  unfolding apply_queue_section
  IsQueue-Ensures rt raw label q h = Ensures-after _ λ fs.
      Ensures-after (set_given "provider" fs _ _) λ _.
        Ensures-bind
          (Ensures-set "sqlite" fs _ _ h.path (λ v. path-Ensures rt v _ q.sqlite_path h.path))
          λ path k.
            Ensures-bind
              (Ensures-set "rabbitmq" fs _ _ (h.url, h.exchange, h.queue)
                (λ v. IsBroker-Ensures v _ q.broker (h.url, h.exchange, h.queue)))
              λ broker b. gave _ (record { path = k; url = b.0; exchange = b.1; queue = b.2 })

any-select :
    (key : String) (ks : List IdentityKey)
    → any (λ (k : IdentityKey). k.key == key) ks ≡ false
    → select key_text key ks ≡ none
unfolding select
any-select key [] h = refl
any-select key (k ∷ ks) h = ground (arith, any-select key ks)

-- The key is new to those before it.
abbrev IsNew : List IdentityKey → IdentityKey → Type 0
IsNew ks k = IsFilled k × (select key_text k.key ks ≡ none)

key-Ensures :
    (label : String) (ks : List IdentityKey) (raw : Value)
    → Ensures (IsNew ks) (read_key label ks raw)
unfolding read_key
key-Ensures label ks raw = Ensures-after _ λ fs.
    Ensures-bind (Ensures-text (get_value "key" fs) _) λ key hk.
      Ensures-bind (Ensures-text (get_value "identity" fs) _) λ identity hi.
        Ensures-if (any (λ (k : IdentityKey). k.key == key) ks) (λ taken. threw _)
          (λ free. gave _ ((hk, hi), any-select key ks free))

abbrev AreKeys : List IdentityKey → Type 0
AreKeys ks = All IsFilled ks × IsKeyed key_text ks

keys-Ensures :
    (rt : Runtime) (label : String) (index : ℕ) (raws : List Value) (ks : List IdentityKey)
    → AreKeys ks
    → Ensures AreKeys (read_keys rt label index raws ks)
unfolding read_keys
keys-Ensures rt label index [] ks h = gave ks h
keys-Ensures rt label index (raw ∷ raws) ks (filled, keyed) =
    Ensures-bind (key-Ensures _ ks raw) λ k (full, fresh).
      keys-Ensures rt label (suc index) raws (ks ++ k ∷ []) (
        All-append IsFilled ks (k ∷ []) filled (full, tt),
        IsKeyed-append key_text ks k keyed fresh,
      )

key_list-Ensures :
    (rt : Runtime) (label : String) (v : Value) → Ensures AreKeys (read_key_list rt label v)
key_list-Ensures rt label (arr vs) = keys-Ensures rt label 0 (items vs) [] (tt, tt)
key_list-Ensures rt label _ = threw _

pub IsIdentity-Ensures :
    (rt : Runtime) (raw : Value) (label : String) (i : IdentitySettings)
    → IsIdentity i
    → Ensures IsIdentity (apply_identity rt raw label i)
unfolding apply_identity
IsIdentity-Ensures rt raw label i h = Ensures-after _ λ fs.
    Ensures-bind (Ensures-set "profile" fs _ _ h.profile (λ v. Ensures-text v _)) λ profile hp.
      Ensures-bind (Ensures-set "keys" fs _ _ (h.filled, h.distinct) (key_list-Ensures rt label))
        λ keys hk. gave _ (record { profile = hp; filled = hk.0; distinct = hk.1 })

patterns-Ensures :
    (label : String) (v : Value) → Ensures (All (λ s. s ≢ "")) (read_patterns label v)
patterns-Ensures label (arr vs) = Ensures-try_map (λ v. Ensures-text v _) (items vs)
patterns-Ensures label _ = threw _

pub redaction-Ensures :
    (raw : Value) (label : String) (patterns : List String)
    → All (λ s. s ≢ "") patterns
    → Ensures (All (λ s. s ≢ "")) (apply_redaction raw label patterns)
unfolding apply_redaction
redaction-Ensures raw label patterns h =
    Ensures-after _ λ fs. Ensures-set "patterns" fs _ _ h (patterns-Ensures label)
