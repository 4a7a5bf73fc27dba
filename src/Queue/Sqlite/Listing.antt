-- ===== src/Queue/Sqlite/Listing.antt =====
-- What `list` returns, and reading back what was enqueued.
use mathlib.Core.List.{Perm}
use mathlib.Core.List.Perm
use mcprelay.Base.{
  ℕ, ◌≤◌, min, ◌≡◌, refl, Bool, true, some, List, map, arith, or_default, length, take, filter, All,
  text_leb, lex_leb_total, codes, length-take,
}
use mcprelay.Base.Everywhere.{
  All-take, All-filter, All-sort_by, All-imp, All-map, take_all, length-sort_by, IsSorted-take,
  IsSorted-map,
}
use mcprelay.Base.Sort.{IsSorted, sort_by, sort_by-IsSorted, sort_by-perm}
use mcprelay.Base.Table.{select}
use mcprelay.Base.Table.Keyed.{All-select}
use mcprelay.Queue.Record.{FailureRecord, FailureFilter}
use mcprelay.Queue.Sqlite.{
  FailureRow, Db, row_id, id_desc, build_where, to_record, list, default_limit, max_limit,
}
use mcprelay.Queue.Sqlite.Views.{IsValid}

abbrev pub bound : FailureFilter → ℕ
bound f = min (or_default f.limit default_limit) max_limit

abbrev pub record_desc : FailureRecord → FailureRecord → Bool
record_desc a b = text_leb b.id a.id

-- The stored rows that match the filter, as records.
abbrev pub matching : FailureFilter → Db → List FailureRecord
matching f db = map to_record (filter (build_where f) db.failures)

abbrev pub IsStored : FailureFilter → Db → FailureRecord → Type 0
IsStored f db r =
    (row : FailureRow) × (select row_id r.id db.failures ≡ some row)
    × (r ≡ to_record row)
    × (build_where f row ≡ true)

pub record IsListing (f : FailureFilter) (db : Db) (out : List FailureRecord) : Type 0 where
  -- At most as many as asked for (50 by default), and at most 500.
  pub bounded : length out ≤ bound f
  -- Newest id first.
  pub sorted : IsSorted record_desc out
  -- Each is a stored record that matches.
  pub sound : All (IsStored f db) out
  -- None is missing unless the bound cuts the list.
  pub complete : length (matching f db) ≤ bound f → Perm out (matching f db)

length-map {ℓ κ} :
    {A : Type ℓ} {B : Type κ} (g : A → B) (xs : List A) → length (map g xs) ≡ length xs
length-map g List.[] = refl
length-map g (List.◌∷◌ x xs) = omega (arith, length-map g xs)

-- A listing of a database with unique keys is bounded by the limit (50 by default, 500 at most),
-- newest id first, holds stored records that match the filter, each as the row under its id, and
-- holds all of them if the bound is not met.
pub list-IsListing : (f : FailureFilter) (db : Db) → IsValid db → IsListing f db (list f db)
unfolding list to_record
list-IsListing f db v = record {
  bounded = omega (
    arith,
    length-map to_record (take (bound f) (sort_by id_desc (filter (build_where f) db.failures))),
    length-take (bound f) (sort_by id_desc (filter (build_where f) db.failures)),
  );
  sorted = IsSorted-map record_desc to_record _ (
      IsSorted-take id_desc (bound f) _
        (sort_by-IsSorted id_desc (λ x y. lex_leb_total (codes y.id) (codes x.id)) _));
  sound = All-map (IsStored f db) to_record _ (
      All-take _ (bound f) _ (
        All-sort_by _ id_desc _ (
          All-imp _ _ (λ r h. (r, h.0, refl, h.1)) _
            (All-filter _ (build_where f) _ (All-select row_id db.failures v.failures_keyed)))));
  complete = λ fits.
      rw
        (take_all (bound f) (sort_by id_desc (filter (build_where f) db.failures)) (
          omega (
            arith,
            fits,
            length-map to_record (filter (build_where f) db.failures),
            length-sort_by id_desc (filter (build_where f) db.failures),
          )))
        (Perm.map to_record (sort_by-perm id_desc (filter (build_where f) db.failures)));
}
