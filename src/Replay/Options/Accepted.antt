-- ===== src/Replay/Options/Accepted.antt =====
-- What the parser of `replay run` accepts.
use mcprelay.Base.{
  ℕ, ◌≤◌, ◌≡◌, ◌≢◌, refl, ◌⊎◌, inl, inr, String, true, false, Option, none, some, List, [], ◌∷◌,
  ◌==◌, eq_iff, arith, All,
}
use mcprelay.Base.Result.{ok}
use mcprelay.Base.Ensures.{Ensures, threw, gave, of_ok, Ensures-bind, Ensures-if}
use mcprelay.Runtime.{Runtime}
use mcprelay.Config.Readers.Ensured.{IfGiven}
use mcprelay.Config.Reliability.{assign}
use mcprelay.Config.Sections.{assign_header}
use mcprelay.Tokens.{Step, refused, flag_read, value_read, to_count}
use mcprelay.Tokens.Laws.{Keeps, Keeps-if, Keeps-with_value, consume_all-Ensures}
use mcprelay.Queue.Record.{FailureFilter}
use mcprelay.Replay.Run.{ReplayOptions}
use mcprelay.Replay.Options.{
  consume_run_token, check_run, check_batch, run_defaults, parse_run_tokens, starts_with_dash,
  split_at_equals, set_override, set_filter, set_limit, consume_limit, on_filter, with_run_filter,
  consume_run_id, is_filter_option,
}

abbrev HasKey : String × String → Type 0
HasKey (key, value) = key ≢ ""

-- What every token keeps.
pub record IsRead (o : ReplayOptions) : Type 0 where
  pub id : starts_with_dash o.id ≡ false
  pub limit : IfGiven (λ n. 1 ≤ n) o.filter.limit
  pub status : o.filter.status ≡ none
  pub keys : All HasKey o.overrides

-- A batch has no id and no override; any other run has an id.
abbrev pub HasTarget : ReplayOptions → Type 0
HasTarget o = ((o.all ≡ true) × (o.id ≡ "") × (o.overrides ≡ [])) ⊎ ((o.all ≡ false) × (o.id ≢ ""))

pub record IsRunnable (o : ReplayOptions) : Type 0 where
  pub is_read : IsRead o
  pub target : HasTarget o

assign_header-All :
    (key value : String) (os : List (String × String))
    → key ≢ ""
    → All HasKey os
    → All HasKey (assign_header key value os)
unfolding assign
assign_header-All key value [] h k = ground arith
assign_header-All key value ((j, w) ∷ os) h k = ground (arith, assign_header-All key value os h)

set_override-Keeps :
    (text : String) (split : Option (String × String)) (o : ReplayOptions)
    → IsRead o
    → Keeps IsRead (set_override text split o)
set_override-Keeps text none o h = tt
set_override-Keeps text (some (key, value)) o h =
    Keeps-if IsRead (key == "") _ _ (λ empty. tt)
      (λ filled. record {
        id = h.id;
        limit = h.limit;
        status = h.status;
        keys =
            assign_header-All key value o.overrides (λ e. ground (arith, filled, eq_iff key ""))
              h.keys;
      })

-- A filter that a batch or a run may have.
abbrev IsFilter : FailureFilter → Type 0
IsFilter f = IfGiven (λ n. 1 ≤ n) f.limit × (f.status ≡ none)

set_filter-IsFilter :
    (token value : String) (f : FailureFilter) → IsFilter f → IsFilter (set_filter token value f)
set_filter-IsFilter token value f h = ground arith

set_limit-IsFilter :
    (value : String) (n : Option ℕ) (f : FailureFilter)
    → IsFilter f
    → Keeps IsFilter (set_limit value n f)
set_limit-IsFilter value none f h = tt
set_limit-IsFilter value (some n) f h = ground arith

consume_limit-IsFilter :
    (rt : Runtime) (next : Option String) (f : FailureFilter)
    → IsFilter f
    → Keeps IsFilter (consume_limit rt next f)
consume_limit-IsFilter rt none f h = tt
consume_limit-IsFilter rt (some value) f h =
    set_limit-IsFilter value (to_count (rt.number_of value)) f h

on_filter-Keeps :
    (o : ReplayOptions) (step : Step FailureFilter)
    → IsRead o
    → Keeps IsFilter step
    → Keeps IsRead (on_filter (with_run_filter o) step)
on_filter-Keeps o (refused message) h k = tt
on_filter-Keeps o (flag_read f) h (l, s) = record {
  id = h.id;
  limit = l;
  status = s;
  keys = h.keys;
}
on_filter-Keeps o (value_read f) h (l, s) = record {
  id = h.id;
  limit = l;
  status = s;
  keys = h.keys;
}

consume_run_id-Keeps :
    (token : String) (o : ReplayOptions) → IsRead o → Keeps IsRead (consume_run_id token o)
consume_run_id-Keeps token o h =
    Keeps-if IsRead (starts_with_dash token) _ _ (λ dash. tt)
      (λ plain.
        Keeps-if IsRead (o.id == "") _ _
          (λ free. record { id = plain; limit = h.limit; status = h.status; keys = h.keys })
          (λ taken. tt))

-- The options that no invariant speaks of.
same :
    (o p : ReplayOptions)
    → p.id ≡ o.id
    → p.filter ≡ o.filter
    → p.overrides ≡ o.overrides
    → IsRead o
    → IsRead p
same o p i f v h = record {
  id = rw i h.id;
  limit = rw f h.limit;
  status = rw f h.status;
  keys = rw v h.keys;
}

consume-Keeps :
    (rt : Runtime) (token : String) (next : Option String) (o : ReplayOptions)
    → IsRead o
    → Keeps IsRead (consume_run_token rt token next o)
unfolding consume_run_token
consume-Keeps rt token next o h =
    Keeps-if IsRead (token == "--config") _ _
      (λ _. Keeps-with_value IsRead "--config" next _ (λ value. same o _ refl refl refl h))
      λ _.
        Keeps-if IsRead (token == "--set") _ _
          (λ _.
            Keeps-with_value IsRead "--set" next _
              (λ value. set_override-Keeps value (split_at_equals value) o h))
          λ _.
            Keeps-if IsRead (is_filter_option token) _ _
              (λ _. on_filter-Keeps o _ h (
                Keeps-with_value IsFilter token next _
                  (λ value. set_filter-IsFilter token value o.filter (h.limit, h.status))))
              λ _.
                Keeps-if IsRead (token == "--limit") _ _
                  (λ _.
                    on_filter-Keeps o _ h
                      (consume_limit-IsFilter rt next o.filter (h.limit, h.status)))
                  λ _.
                    Keeps-if IsRead (token == "--all") _ _ (λ _. same o _ refl refl refl h)
                      λ _.
                        Keeps-if IsRead (token == "--dry-run") _ _ (λ _. same o _ refl refl refl h)
                          λ _.
                            Keeps-if IsRead (token == "--force") _ _
                              (λ _. same o _ refl refl refl h)
                              λ _.
                                Keeps-if IsRead (token == "--json") _ _
                                  (λ _. same o _ refl refl refl h)
                                  (λ _. consume_run_id-Keeps token o h)

check_batch-Ensures :
    (os : List (String × String)) (o : ReplayOptions)
    → IsRead o
    → o.all ≡ true
    → o.id ≡ ""
    → o.overrides ≡ os
    → Ensures IsRunnable (check_batch os o)
check_batch-Ensures [] o h a i v = gave o (record { is_read = h; target = inl (a, i, v) })
check_batch-Ensures (entry ∷ os) o h a i v = threw _

check_run-Ensures : (o : ReplayOptions) → IsRead o → Ensures IsRunnable (check_run o)
check_run-Ensures o h =
    Ensures-if o.all
      (λ batch.
        Ensures-if (o.id == "")
          (λ empty. check_batch-Ensures o.overrides o h batch ((eq_iff o.id "").0 empty) refl)
          (λ filled. threw _))
      (λ single.
        Ensures-if (o.id == "") (λ empty. threw _)
          (λ filled. gave o (record {
            is_read = h;
            target = inr (single, λ e. ground (arith, filled, e, eq_iff o.id ""));
          })))

-- A `replay run` that is accepted is one run or a batch, never both: a batch has no id and no
-- override, so it never rewrites the arguments of many records, and any other run has an id, which
-- is no option. A limit is at least one, no override has an empty key, and no status is asked for.
pub parse_run_tokens-IsRunnable :
    (rt : Runtime) (tokens : List String) (o : ReplayOptions)
    → parse_run_tokens rt tokens ≡ ok o
    → IsRunnable o
unfolding parse_run_tokens
parse_run_tokens-IsRunnable rt tokens o h =
    of_ok {P = IsRunnable}
      (Ensures-bind
        (consume_all-Ensures IsRead (consume_run_token rt) (consume-Keeps rt) tokens run_defaults
          (record { id = refl; limit = tt; status = refl; keys = tt }))
        (λ p k. check_run-Ensures p k))
      h
