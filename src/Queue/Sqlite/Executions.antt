-- ===== src/Queue/Sqlite/Executions.antt =====
-- The idempotency index: the latest execution of each key, and the latest with given arguments.
use mcprelay.Base.{
  String, ◌≡◌, refl, Bool, true, Option, some, List, [], ◌∷◌, ◌==◌, eq_iff, arith, filter, All,
  text_leb, lex_leb_total, lex_leb_trans, lex_leb_refl, codes, if◌then◌else◌, Bool-cases,
  Option-cases, inl, inr,
}
use mathlib.Core.Path.{subst}
use mcprelay.Base.Everywhere.{All-imp}
use mcprelay.Base.Table.{insert}
use mcprelay.Base.Table.Keyed.{select-append, select-update, key_of-select}
use mcprelay.Queue.Record.{ExecutionEntry}
use mcprelay.Queue.Sqlite.{
  Db, entry_key, record_execution, last_execution, last_execution_by_hash, later, latest,
}

-- After an execution is recorded, its key has that execution, whether it had another before or
-- none, and every other key has what it had.
pub last_execution-record_execution :
    (e : ExecutionEntry) (db : Db) (key : String)
    → last_execution key (record_execution e db)
      ≡ (if e.key == key then some e else last_execution key db)
unfolding last_execution record_execution insert
last_execution-record_execution e db key = ground (
  arith,
  select-append entry_key key db.executions e,
  select-update entry_key (λ x. x.key == e.key) (λ x. record e { key = x.key }) key db.executions
      (λ x. refl),
  key_of-select entry_key key db.executions,
  eq_iff e.key key,
  eq_iff key e.key,
)

-- No entry of the list was executed after `e`.
abbrev pub IsLatest : ExecutionEntry → List ExecutionEntry → Type 0
IsLatest e es = All (λ x. text_leb x.executed_at e.executed_at ≡ true) es

later-bounds :
    (x d : ExecutionEntry)
    → (text_leb x.executed_at (later x (some d)).executed_at ≡ true)
      × (text_leb d.executed_at (later x (some d)).executed_at ≡ true)
later-bounds x d = elim (Bool-cases (text_leb d.executed_at x.executed_at)) [
  | inl before ↦ rw before (lex_leb_refl (codes x.executed_at), before)
  | inr after ↦ rw after (
    lex_leb_total (codes d.executed_at) (codes x.executed_at) after,
    lex_leb_refl (codes d.executed_at),
  )
]

unwrap : (a b : ExecutionEntry) → ◌≡◌ {A = Option ExecutionEntry} (some a) (some b) → a ≡ b
unwrap a b h = cc

latest-IsLatest :
    (es : List ExecutionEntry) (e : ExecutionEntry) → latest es ≡ some e → IsLatest e es
unfolding latest
latest-IsLatest [] e h = cc
latest-IsLatest (x ∷ []) e h =
    subst (λ r. IsLatest r (x ∷ [])) (unwrap x e h) (lex_leb_refl (codes x.executed_at), tt)
latest-IsLatest (x ∷ y ∷ ys) e h =
    let d = later y (latest ys) in
    let (first, rest) = later-bounds x d in
    subst (λ r. IsLatest r (x ∷ y ∷ ys)) (unwrap _ e h)
      (
        first,
        All-imp _ _
            (λ z below. lex_leb_trans (codes z.executed_at) (codes d.executed_at) _ below rest)
            (y ∷ ys) (latest-IsLatest (y ∷ ys) d refl),
      )

module _ (test : ExecutionEntry → Bool) where
  latest-passes :
      (es : List ExecutionEntry) (e : ExecutionEntry)
      → latest (filter test es) ≡ some e
      → test e ≡ true
  unfolding latest
  latest-passes [] e h = cc
  latest-passes (x ∷ xs) e h = elim (Bool-cases (test x)) [
    | inl hit ↦ elim (Option-cases (latest (filter test xs))) [
      | inl alone ↦ ground (arith, hit, alone, h)
      | inr (d, found) ↦ ground (arith, hit, found, h, latest-passes xs d found)
    ]
    | inr miss ↦ latest-passes xs e (ground (arith, miss, h))
  ]

-- The execution found for a hash of arguments has these arguments, and no stored execution with
-- them is later.
pub last_execution_by_hash-IsLatest :
    (hash : String) (db : Db) (e : ExecutionEntry)
    → last_execution_by_hash hash db ≡ some e
    → (e.arguments_hash ≡ hash) × IsLatest e (filter (λ x. x.arguments_hash == hash) db.executions)
unfolding last_execution_by_hash
last_execution_by_hash-IsLatest hash db e h = (
  (eq_iff e.arguments_hash hash).0
      (latest-passes (λ x. x.arguments_hash == hash) db.executions e h),
  latest-IsLatest _ e h,
)
