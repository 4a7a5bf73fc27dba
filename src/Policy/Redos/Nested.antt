-- ===== src/Policy/Redos/Nested.antt =====
-- Which repetitions the scanner finds.
use mcprelay.Base.{
  ℕ, ◌≡◌, refl, ◌∙◌, Bool, true, false, ◌||◌, not, Option, none, some, List, [], ◌∷◌, ◌++◌, nat_eq,
  arith, all, Bool-cases, inl, inr, and_true,
}
use mcprelay.Policy.Redos.{
  char, GroupFrame, Risk, nested_quantifier, ScanState, note_atom, note_frame, clear, open_frame,
  step, go, stop, scan, start, find_redos_risk, skip_group_prefix, close_group, group_risk,
  apply_quantifier,
}

-- A character with no role in a regular expression.
abbrev pub is_plain : ℕ → Bool
is_plain c = not (
    nat_eq c b'\\'
    || nat_eq c b'['
    || nat_eq c b'('
    || nat_eq c b')'
    || nat_eq c b'|'
    || nat_eq c b'*'
    || nat_eq c b'+'
    || nat_eq c b'?'
    || nat_eq c b'{'
    || nat_eq c b'.')

abbrev pub is_repeat : ℕ → Bool
is_repeat c = nat_eq c b'*' || nat_eq c b'+'

step-plain :
    (c : ℕ) (rest : List ℕ) (s : ScanState)
    → is_plain c ≡ true
    → s.in_class ≡ false
    → step c rest s ≡ go 0 (clear (note_atom (char c) s))
unfolding step
step-plain c rest s h k = ground arith

step-repeat :
    (c : ℕ) (rest : List ℕ) (s : ScanState)
    → is_repeat c ≡ true
    → s.in_class ≡ false
    → step c rest s ≡ apply_quantifier 0 s
unfolding step
step-repeat c rest s h k = ground arith

abbrev at_frames : List GroupFrame → Option Risk → ScanState
at_frames frames pending = record { frames = frames; in_class = false; pending = pending }

scan-step :
    (c : ℕ) (rest : List ℕ) (s s' : ScanState) (skip : ℕ)
    → step c rest s ≡ go skip s'
    → scan 0 s (c ∷ rest) ≡ scan skip s' rest
unfolding scan
scan-step c rest s s' skip h = rw (h, scan) refl

scan-stop :
    (c : ℕ) (rest : List ℕ) (s : ScanState) (risk : Risk)
    → step c rest s ≡ stop risk
    → scan 0 s (c ∷ rest) ≡ some risk
unfolding scan
scan-stop c rest s risk h = rw (h, scan) refl

scan-nothing : (s : ScanState) → scan 0 s [] ≡ none
unfolding scan
scan-nothing s = refl

scan-plain_start :
    (pre rest : List ℕ) → all is_plain pre ≡ true → scan 0 start (pre ++ rest) ≡ scan 0 start rest
scan-plain_start [] rest h = refl
scan-plain_start (c ∷ pre) rest h =
    let (plain, later) = and_true (is_plain c) (all is_plain pre) h in
    scan-step c (pre ++ rest) start start 0 (step-plain c (pre ++ rest) start plain refl)
    ∙ scan-plain_start pre rest later

abbrev is_body : ℕ → Bool
is_body c = is_plain c || is_repeat c

-- Where a group with a quantifier ends and a repetition follows, a risk is found.
close-marked :
    (frame : GroupFrame) (frames : List GroupFrame) (pending : Option Risk) (rest : List ℕ)
    → frame.has_quantifier ≡ true
    → step b')' rest (at_frames (frame ∷ frames) pending)
      ≡ go 0 (at_frames frames (some nested_quantifier))
unfolding step close_group group_risk
close-marked frame frames pending rest h = ground arith

marked_group :
    (frame : GroupFrame) (frames : List GroupFrame) (body rest : List ℕ) (q : ℕ)
    → frame.has_quantifier ≡ true
    → all is_body body ≡ true
    → is_repeat q ≡ true
    → scan 0 (at_frames (frame ∷ frames) none) (body ++ b')' ∷ q ∷ rest) ≡ some nested_quantifier
unfolding apply_quantifier
marked_group frame frames [] rest q marked h k =
    let closed = at_frames frames (some nested_quantifier) in
    scan-step b')' (q ∷ rest) (at_frames (frame ∷ frames) none) closed 0
      (close-marked frame frames none (q ∷ rest) marked)
    ∙ scan-stop q rest closed nested_quantifier (step-repeat q rest closed k refl)
marked_group frame frames (c ∷ body) rest q marked h k =
    let (now, later) = and_true (is_body c) (all is_body body) h in
    let behind = body ++ b')' ∷ q ∷ rest in
    let s = at_frames (frame ∷ frames) none in
    elim (Bool-cases (is_plain c)) [
      | inl plain ↦
          scan-step c behind s (clear (note_atom (char c) s)) 0 (step-plain c behind s plain refl)
          ∙ marked_group (note_frame (char c) frame) frames body rest q marked later k
      | inr other ↦
          let quantified = record frame { has_quantifier = true } in
          scan-step c behind s (at_frames (quantified ∷ frames) none) 0
            (step-repeat c behind s (ground arith) refl)
          ∙ marked_group quantified frames body rest q refl later k
    ]

unmarked_group :
    (frame : GroupFrame) (frames : List GroupFrame) (plains body rest : List ℕ) (r q : ℕ)
    → all is_plain plains ≡ true
    → is_repeat r ≡ true
    → all is_body body ≡ true
    → is_repeat q ≡ true
    → scan 0 (at_frames (frame ∷ frames) none) (plains ++ r ∷ (body ++ b')' ∷ q ∷ rest))
      ≡ some nested_quantifier
unfolding apply_quantifier
unmarked_group frame frames [] body rest r q h i j k =
    let quantified = record frame { has_quantifier = true } in
    let behind = body ++ b')' ∷ q ∷ rest in
    let s = at_frames (frame ∷ frames) none in
    scan-step r behind s (at_frames (quantified ∷ frames) none) 0 (step-repeat r behind s i refl)
    ∙ marked_group quantified frames body rest q refl j k
unmarked_group frame frames (c ∷ plains) body rest r q h i j k =
    let (plain, later) = and_true (is_plain c) (all is_plain plains) h in
    let behind = plains ++ r ∷ (body ++ b')' ∷ q ∷ rest) in
    let s = at_frames (frame ∷ frames) none in
    scan-step c behind s (clear (note_atom (char c) s)) 0 (step-plain c behind s plain refl)
    ∙ unmarked_group (note_frame (char c) frame) frames plains body rest r q later i j k

skip_group_prefix-other :
    (c : ℕ) (rest : List ℕ) → nat_eq c b'?' ≡ false → skip_group_prefix (c ∷ rest) ≡ 0
unfolding skip_group_prefix
skip_group_prefix-other c [] h = ground arith
skip_group_prefix-other c (d ∷ rest) h = ground arith

step-open :
    (c : ℕ) (rest : List ℕ) (frames : List GroupFrame) (pending : Option Risk)
    → nat_eq c b'?' ≡ false
    → step b'(' (c ∷ rest) (at_frames frames pending) ≡ go 0 (at_frames (open_frame ∷ frames) none)
unfolding step
step-open c rest frames pending h = rw (skip_group_prefix-other c rest h) refl

-- no question mark at its head, whatever follows
starts_clear :
    (plains rest : List ℕ) (r : ℕ)
    → all is_plain plains ≡ true
    → is_repeat r ≡ true
    → scan 0 start (b'(' ∷ (plains ++ r ∷ rest))
      ≡ scan 0 (at_frames (open_frame ∷ []) none) (plains ++ r ∷ rest)
starts_clear [] rest r h k =
    scan-step b'(' (r ∷ rest) start (at_frames (open_frame ∷ []) none) 0
      (step-open r rest [] none (ground arith))
starts_clear (c ∷ plains) rest r h k =
    let (plain, later) = and_true (is_plain c) (all is_plain plains) h in
    scan-step b'(' (c ∷ (plains ++ r ∷ rest)) start (at_frames (open_frame ∷ []) none) 0
      (step-open c (plains ++ r ∷ rest) [] none (ground arith))

-- After a start without special characters, a repeated group of plain characters and repetitions
-- (`*`, `+`), with at least one repetition, is found: its pattern is rejected as nested.
pub find_redos_risk-nested :
    (pre plains body rest : List ℕ) (r q : ℕ)
    → all is_plain pre ≡ true
    → all is_plain plains ≡ true
    → is_repeat r ≡ true
    → all is_body body ≡ true
    → is_repeat q ≡ true
    → find_redos_risk (pre ++ b'(' ∷ (plains ++ r ∷ (body ++ b')' ∷ q ∷ rest)))
      ≡ some nested_quantifier
unfolding find_redos_risk
find_redos_risk-nested pre plains body rest r q h i j k l =
    scan-plain_start pre (b'(' ∷ (plains ++ r ∷ (body ++ b')' ∷ q ∷ rest))) h
    ∙ starts_clear plains (body ++ b')' ∷ q ∷ rest) r i j
    ∙ unmarked_group open_frame [] plains body rest r q i j k l

wrapped_run :
    (c r q : ℕ)
    → is_plain c ≡ true
    → is_repeat r ≡ true
    → is_repeat q ≡ true
    → scan 0 start (b'(' ∷ b'(' ∷ c ∷ r ∷ b')' ∷ b')' ∷ q ∷ []) ≡ none
unfolding step close_group group_risk apply_quantifier
wrapped_run c r q h j k =
    let outer = at_frames (open_frame ∷ []) none in
    let inner = at_frames (open_frame ∷ open_frame ∷ []) none in
    let noted = clear (note_atom (char c) inner) in
    let quantified : GroupFrame = record {
      has_quantifier = true;
      alternatives = [];
      current_alternative = some (char c);
    } in
    let marked = at_frames (quantified ∷ open_frame ∷ []) none in
    let left = at_frames (open_frame ∷ []) (some nested_quantifier) in
    scan-step b'(' (b'(' ∷ c ∷ r ∷ b')' ∷ b')' ∷ q ∷ []) start outer 0
      (step-open b'(' (c ∷ r ∷ b')' ∷ b')' ∷ q ∷ []) [] none refl)
    ∙ scan-step b'(' (c ∷ r ∷ b')' ∷ b')' ∷ q ∷ []) outer inner 0
        (step-open c (r ∷ b')' ∷ b')' ∷ q ∷ []) (open_frame ∷ []) none (ground arith))
    ∙ scan-step c (r ∷ b')' ∷ b')' ∷ q ∷ []) inner noted 0
        (step-plain c (r ∷ b')' ∷ b')' ∷ q ∷ []) inner h refl)
    ∙ scan-step r (b')' ∷ b')' ∷ q ∷ []) noted marked 0
        (step-repeat r (b')' ∷ b')' ∷ q ∷ []) noted j refl)
    ∙ scan-step b')' (b')' ∷ q ∷ []) marked left 0
        (close-marked quantified (open_frame ∷ []) none (b')' ∷ q ∷ []) refl)
    ∙ scan-step b')' (q ∷ []) left start 0 refl
    ∙ scan-step q [] start start 0 (step-repeat q [] start k refl)
    ∙ scan-nothing start

-- A repeated group around one repeated character is flagged as nested; one more pair of parentheses
-- around that group, `((a+))+`, and it is not flagged.
pub find_redos_risk-wrapped :
    (c r q : ℕ)
    → is_plain c ≡ true
    → is_repeat r ≡ true
    → is_repeat q ≡ true
    → (find_redos_risk (b'(' ∷ c ∷ r ∷ b')' ∷ q ∷ []) ≡ some nested_quantifier)
      × (find_redos_risk (b'(' ∷ b'(' ∷ c ∷ r ∷ b')' ∷ b')' ∷ q ∷ []) ≡ none)
unfolding find_redos_risk
find_redos_risk-wrapped c r q h j k = (
  find_redos_risk-nested [] (c ∷ []) [] [] r q refl (ground arith) j refl k,
  wrapped_run c r q h j k,
)
