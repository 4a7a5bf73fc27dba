-- ===== src/Policy/Redos.antt =====
-- src/policy/matchers.ts, findRedosRisk: the scanner that rejects patterns whose matching may take
-- exponential time. The pattern is the list of its code units; a step says how many more units the
-- index skips.
pub mod Nested
use mcprelay.Base.{
  ℕ, zero, suc, ◌+◌, Bool, true, false, ◌&&◌, ◌||◌, Option, none, some, List, [], ◌∷◌, ◌++◌, nat_eq,
  ltb, length, any, or_default, if◌then◌else◌,
}

-- The first character of an alternative: '' (none), '*' (any) or a character.
pub data First : Type 0 where
  nothing wild : First
  char : ℕ → First

pub record GroupFrame : Type 0 where
  pub has_quantifier : Bool
  pub alternatives : List First
  pub current_alternative : Option First

pub data Risk : Type 0 where
  nested_quantifier ambiguous_alternation : Risk

-- The innermost frame stands first.
pub record ScanState : Type 0 where
  pub frames : List GroupFrame
  pub in_class : Bool
  pub pending : Option Risk

abbrev first_eq : First → First → Bool
first_eq nothing nothing = true
first_eq wild wild = true
first_eq (char a) (char b) = nat_eq a b
first_eq _ _ = false

abbrev is_open_ended : First → Bool
is_open_ended (char c) = false
is_open_ended _ = true

-- The loop of alternationIsAmbiguous, `seen` being the set.
ambiguous_from : List First → List First → Bool
ambiguous_from seen [] = false
ambiguous_from seen (f ∷ fs) =
    is_open_ended f || any (first_eq f) seen || ambiguous_from (f ∷ seen) fs

unfoldable pub alternation_is_ambiguous : List First → Bool
unfolding ambiguous_from
alternation_is_ambiguous fs = ambiguous_from [] fs

-- Records the first character of the atom that starts the current alternative.
abbrev pub note_frame : First → GroupFrame → GroupFrame
note_frame f frame = record frame {
  current_alternative = some (or_default frame.current_alternative f);
}

abbrev on_top : (GroupFrame → GroupFrame) → List GroupFrame → List GroupFrame
on_top g [] = []
on_top g (frame ∷ frames) = g frame ∷ frames

abbrev pub note_atom : First → ScanState → ScanState
note_atom f s = record s { frames = on_top (note_frame f) s.frames }

abbrev pub push_alternative : GroupFrame → GroupFrame
push_alternative frame = record frame {
  alternatives = frame.alternatives ++ or_default frame.current_alternative nothing ∷ [];
  current_alternative = none;
}

abbrev start_alternative : ScanState → ScanState
start_alternative s = record s { frames = on_top push_alternative s.frames }

abbrev pub clear : ScanState → ScanState
clear s = record s { pending = none }

-- The place of the first `c`.
unfoldable pub index_of : ℕ → List ℕ → Option ℕ
index_of c [] = none
index_of c (u ∷ us) =
    if nat_eq u c then some 0 else elim (index_of c us) [ none ↦ none | some k ↦ some (suc k) ]

-- Units to skip after `(`: `?` of a special group, and a `?<name>` up to its end.
unfoldable pub skip_group_prefix : List ℕ → ℕ
unfolding index_of
skip_group_prefix [] = 0
skip_group_prefix (q ∷ []) = if nat_eq q b'?' then 1 else 0
skip_group_prefix (q ∷ lt ∷ us) =
    if nat_eq q b'?'
    then (if nat_eq lt b'<' then elim (index_of b'>' us) [ none ↦ 1 | some k ↦ k + 3 ] else 1)
    else 0

abbrev pub open_frame : GroupFrame
open_frame = record { has_quantifier = false; alternatives = []; current_alternative = none }

abbrev open_group : ScanState → ScanState
open_group s = record s { frames = open_frame ∷ s.frames; pending = none }

-- The risk of a group that closes, after its last alternative is pushed.
unfoldable pub group_risk : GroupFrame → Option Risk
unfolding alternation_is_ambiguous
group_risk frame =
    if frame.has_quantifier
    then some nested_quantifier
    else if ltb 1 (length frame.alternatives) && alternation_is_ambiguous frame.alternatives
    then some ambiguous_alternation
    else none

close_frames : List GroupFrame → ScanState → ScanState
close_frames [] s = s
close_frames (frame ∷ frames) s = record s {
  frames = frames;
  pending = group_risk (push_alternative frame);
}

unfoldable pub close_group : ScanState → ScanState
unfolding close_frames group_risk
close_group s = close_frames s.frames s

pub data Step : Type 0 where
  stop : Risk → Step
  go : ℕ → ScanState → Step

-- A quantifier closes a pending risk, or marks the innermost group.
unfoldable pub apply_quantifier : ℕ → ScanState → Step
apply_quantifier skip s = elim s.pending [
  | some risk ↦ stop risk
  | none ↦ go skip (
      clear
        (record s { frames = on_top (λ frame. record frame { has_quantifier = true }) s.frames }))
]

unfoldable pub step_brace : List ℕ → ScanState → Step
unfolding index_of apply_quantifier
step_brace rest s = elim (index_of b'}' rest) [
  | some k ↦ apply_quantifier (k + 1) s
  | none ↦ go 0 (clear (note_atom (char b'{') s))
]

-- One round of the loop at the unit `c`, with `rest` behind it.
unfoldable pub step : ℕ → List ℕ → ScanState → Step
unfolding skip_group_prefix close_group apply_quantifier step_brace
step c rest s =
    if nat_eq c b'\\'
    then go 1 (clear (note_atom wild s))
    else if s.in_class
    then go 0 (if nat_eq c b']' then record s { in_class = false } else s)
    else if nat_eq c b'['
    then go 0 (clear (note_atom wild (record s { in_class = true })))
    else if nat_eq c b'('
    then go (skip_group_prefix rest) (clear (open_group s))
    else if nat_eq c b')'
    then go 0 (close_group s)
    else if nat_eq c b'|'
    then go 0 (clear (start_alternative s))
    else if nat_eq c b'*' || nat_eq c b'+' || nat_eq c b'?'
    then apply_quantifier 0 s
    else if nat_eq c b'{'
    then step_brace rest s
    else go 0 (clear (note_atom (if nat_eq c b'.' then wild else char c) s))

-- The loop; its first argument is the number of units that are still to be skipped.
unfoldable pub scan : ℕ → ScanState → List ℕ → Option Risk
scan skip s [] = none
scan (suc skip) s (c ∷ rest) = scan skip s rest
scan zero s (c ∷ rest) = elim (step c rest s) [
  | stop risk ↦ some risk
  | go skip s' ↦ scan skip s' rest
]

abbrev pub start : ScanState
start = record { frames = []; in_class = false; pending = none }

unfoldable pub find_redos_risk : List ℕ → Option Risk
unfolding scan
find_redos_risk pattern = scan 0 start pattern
