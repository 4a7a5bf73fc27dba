-- ===== src/Replay/CommandLine/RoundTrip.antt =====
-- A command line that is quoted is read back as it was.
use mcprelay.Base.{
  ℕ, ◌≡◌, refl, sym, ap, ◌∙◌, inl, inr, Bool, true, false, Option, none, some, List, [], ◌∷◌, ◌++◌,
  map, nat_eq, all, arith, and_true, Bool-cases,
}
use mcprelay.Base.Result.{ok}
use mcprelay.Replay.CommandLine.{
  is_safe, escape_quotes, quote_token, join_spaces, quote_command_line, Scan, add, begin_token,
  in_quote, outside, has_more, is_bare, command_of, round, scan, finish, parse_command_line, after,
}

at_state : List (List ℕ) → List ℕ → Option ℕ → Bool → Scan
at_state tokens current quote started = record {
  tokens = tokens;
  current = current;
  quote = quote;
  started = started;
}

append_nil : (xs : List ℕ) → xs ++ [] ≡ xs
append_nil [] = refl
append_nil (x ∷ xs) = ap (λ (ys : List ℕ). x ∷ ys) (append_nil xs)

append_assoc : (xs ys zs : List ℕ) → (xs ++ ys) ++ zs ≡ xs ++ (ys ++ zs)
append_assoc [] ys zs = refl
append_assoc (x ∷ xs) ys zs = ap (λ (ws : List ℕ). x ∷ ws) (append_assoc xs ys zs)

-- A safe character is taken as it is.
outside-safe :
    (c : ℕ) (more : Bool) (s : Scan)
    → is_safe c ≡ true
    → outside c more s ≡ after (begin_token (add c s))
unfolding outside
outside-safe c more s h = ground arith

scan-after :
    (c : ℕ) (cs : List ℕ) (s s' : Scan)
    → round s.quote c (has_more cs) s ≡ after s'
    → scan false (c ∷ cs) s ≡ scan false cs s'
unfolding scan
scan-after c cs s s' h = rw (h, scan) refl

scan-safe :
    (cs rest : List ℕ) (tokens : List (List ℕ)) (current : List ℕ)
    → all is_safe cs ≡ true
    → scan false (cs ++ rest) (at_state tokens current none true)
      ≡ scan false rest (at_state tokens (current ++ cs) none true)
unfolding at_state round
scan-safe [] rest tokens current h =
    ap (λ (xs : List ℕ). scan false rest (at_state tokens xs none true)) (sym (append_nil current))
scan-safe (c ∷ cs) rest tokens current h =
    let (now, later) = and_true (is_safe c) (all is_safe cs) h in
    let s = at_state tokens current none true in
    scan-after c (cs ++ rest) s (at_state tokens (current ++ c ∷ []) none true)
      (outside-safe c (has_more (cs ++ rest)) s now)
    ∙ scan-safe cs rest tokens (current ++ c ∷ []) later
    ∙ ap (λ (xs : List ℕ). scan false rest (at_state tokens xs none true))
        (append_assoc current (c ∷ []) cs)

in_quote-other :
    (c : ℕ) (more : Bool) (s : Scan)
    → nat_eq c b'\'' ≡ false
    → in_quote b'\'' c more s ≡ after (add c s)
unfolding in_quote
in_quote-other c more s h = ground arith

-- An escaped quote closes the quote, stands behind a backslash, and opens the quote again.
scan-escaped :
    (rest : List ℕ) (tokens : List (List ℕ)) (current : List ℕ)
    → scan false (b'\'' ∷ b'\\' ∷ b'\'' ∷ b'\'' ∷ rest) (at_state tokens current (some b'\'') true)
      ≡ scan false rest (at_state tokens (current ++ b'\'' ∷ []) (some b'\'') true)
unfolding at_state scan round in_quote outside
scan-escaped rest tokens current = refl

scan-quoted :
    (cs rest : List ℕ) (tokens : List (List ℕ)) (current : List ℕ)
    → scan false (escape_quotes cs ++ rest) (at_state tokens current (some b'\'') true)
      ≡ scan false rest (at_state tokens (current ++ cs) (some b'\'') true)
unfolding at_state round
scan-quoted [] rest tokens current =
    ap (λ (xs : List ℕ). scan false rest (at_state tokens xs (some b'\'') true))
      (sym (append_nil current))
scan-quoted (c ∷ cs) rest tokens current = elim (Bool-cases (nat_eq c b'\'')) [
  | inl same ↦
      let is_quote : c ≡ b'\'' = ground (arith, same) in
      let written : escape_quotes (c ∷ cs) ≡ b'\'' ∷ b'\\' ∷ b'\'' ∷ b'\'' ∷ escape_quotes cs =
        ground (arith, same) in
      ap (λ (xs : List ℕ). scan false (xs ++ rest) (at_state tokens current (some b'\'') true))
        written
      ∙ scan-escaped (escape_quotes cs ++ rest) tokens current
      ∙ scan-quoted cs rest tokens (current ++ b'\'' ∷ [])
      ∙ ap (λ (xs : List ℕ). scan false rest (at_state tokens xs (some b'\'') true))
          (append_assoc current (b'\'' ∷ []) cs ∙ ap (λ (d : ℕ). current ++ d ∷ cs) (sym is_quote))
  | inr other ↦
      let s = at_state tokens current (some b'\'') true in
      let written : escape_quotes (c ∷ cs) ≡ c ∷ escape_quotes cs = ground (arith, other) in
      ap (λ (xs : List ℕ). scan false (xs ++ rest) s) written
      ∙ scan-after c (escape_quotes cs ++ rest) s
          (at_state tokens (current ++ c ∷ []) (some b'\'') true)
          (in_quote-other c (has_more (escape_quotes cs ++ rest)) s other)
      ∙ scan-quoted cs rest tokens (current ++ c ∷ [])
      ∙ ap (λ (xs : List ℕ). scan false rest (at_state tokens xs (some b'\'') true))
          (append_assoc current (c ∷ []) cs)
]

scan-bare :
    (token rest : List ℕ) (tokens : List (List ℕ))
    → is_bare token ≡ true
    → scan false (token ++ rest) (at_state tokens [] none false)
      ≡ scan false rest (at_state tokens token none true)
unfolding at_state round
scan-bare [] rest tokens h = absurd cc
scan-bare (c ∷ cs) rest tokens h =
    let (now, later) = and_true (is_safe c) (all is_safe cs) h in
    let s = at_state tokens [] none false in
    scan-after c (cs ++ rest) s (at_state tokens (c ∷ []) none true)
      (outside-safe c (has_more (cs ++ rest)) s now)
    ∙ scan-safe cs rest tokens (c ∷ []) later

scan-open :
    (rest : List ℕ) (tokens : List (List ℕ))
    → scan false (b'\'' ∷ rest) (at_state tokens [] none false)
      ≡ scan false rest (at_state tokens [] (some b'\'') true)
unfolding at_state scan round outside
scan-open rest tokens = refl

scan-close :
    (rest : List ℕ) (tokens : List (List ℕ)) (current : List ℕ)
    → scan false (b'\'' ∷ rest) (at_state tokens current (some b'\'') true)
      ≡ scan false rest (at_state tokens current none true)
unfolding at_state scan round in_quote
scan-close rest tokens current = refl

scan-token :
    (token rest : List ℕ) (tokens : List (List ℕ))
    → scan false (quote_token token ++ rest) (at_state tokens [] none false)
      ≡ scan false rest (at_state tokens token none true)
unfolding quote_token
scan-token token rest tokens = elim (Bool-cases (is_bare token)) [
  | inl bare ↦
      ap (λ (xs : List ℕ). scan false (xs ++ rest) (at_state tokens [] none false))
        (quote_token-bare token bare)
      ∙ scan-bare token rest tokens bare
  | inr other ↦
      let text = escape_quotes token in
      ap (λ (xs : List ℕ). scan false (xs ++ rest) (at_state tokens [] none false))
        (quote_token-quoted token other)
      ∙ scan-open ((text ++ b'\'' ∷ []) ++ rest) tokens
      ∙ ap (λ (xs : List ℕ). scan false xs (at_state tokens [] (some b'\'') true))
          (append_assoc text (b'\'' ∷ []) rest)
      ∙ scan-quoted token (b'\'' ∷ rest) tokens []
      ∙ scan-close rest tokens token
]
  where
    quote_token-bare : (token : List ℕ) → is_bare token ≡ true → quote_token token ≡ token
    quote_token-bare token h = ground (arith, h)

    quote_token-quoted :
        (token : List ℕ)
        → is_bare token ≡ false
        → quote_token token ≡ b'\'' ∷ (escape_quotes token ++ b'\'' ∷ [])
    quote_token-quoted token h = ground (arith, h)

scan-space :
    (rest : List ℕ) (tokens : List (List ℕ)) (token : List ℕ)
    → scan false (b' ' ∷ rest) (at_state tokens token none true)
      ≡ scan false rest (at_state (tokens ++ token ∷ []) [] none false)
unfolding at_state scan round outside
scan-space rest tokens token = refl

tokens_assoc :
    (xs : List (List ℕ)) (y : List ℕ) (zs : List (List ℕ)) → (xs ++ y ∷ []) ++ zs ≡ xs ++ y ∷ zs
tokens_assoc [] y zs = refl
tokens_assoc (x ∷ xs) y zs = ap (λ (ws : List (List ℕ)). x ∷ ws) (tokens_assoc xs y zs)

finish-end :
    (token : List ℕ) (tokens : List (List ℕ))
    → finish (scan false [] (at_state tokens token none true)) ≡ command_of (tokens ++ token ∷ [])
unfolding at_state scan
finish-end token tokens = refl

finish-line :
    (token : List ℕ) (more : List (List ℕ)) (tokens : List (List ℕ))
    → finish
        (scan false (join_spaces (map quote_token (token ∷ more))) (at_state tokens [] none false))
      ≡ command_of (tokens ++ token ∷ more)
unfolding at_state
finish-line token [] tokens =
    ap (λ (xs : List ℕ). finish (scan false xs (at_state tokens [] none false)))
      (sym (append_nil (quote_token token)))
    ∙ ap finish (scan-token token [] tokens)
    ∙ finish-end token tokens
finish-line token (next ∷ more) tokens =
    let behind = join_spaces (map quote_token (next ∷ more)) in
    ap finish (scan-token token (b' ' ∷ behind) tokens ∙ scan-space behind tokens token)
    ∙ finish-line next more (tokens ++ token ∷ [])
    ∙ ap command_of (tokens_assoc tokens token (next ∷ more))

-- The command line that is stored for a server is read back, at a replay, as the same command and
-- arguments, whatever characters they have.
pub parse_command_line-quote_command_line :
    (command : List ℕ) (args : List (List ℕ))
    → parse_command_line (quote_command_line command args) ≡ ok (command, args)
unfolding parse_command_line quote_command_line at_state
parse_command_line-quote_command_line command args = finish-line command args []
