-- ===== src/Replay/CommandLine.antt =====
-- src/replay/command-line.ts: the command line of a stored server. A text is the list of its UTF-16
-- code units.
pub mod RoundTrip
use mcprelay.Base.{
  ℕ, suc, Bool, true, false, not, ◌&&◌, ◌||◌, Option, none, some, List, [], ◌∷◌, ◌++◌, map, nat_eq,
  leb, any, all, codes, if◌then◌else◌,
}
use mcprelay.Base.Result.{Result, err, ok}

-- What `/[A-Za-z0-9_@%+=:,./-]/` reads.
abbrev pub is_safe : ℕ → Bool
is_safe c =
    (leb b'A' c && leb c b'Z')
    || (leb b'a' c && leb c b'z')
    || (leb b'0' c && leb c b'9')
    || any (nat_eq c) (codes "_@%+=:,./-")

-- What `/\s/` reads.
abbrev pub is_space : ℕ → Bool
is_space c =
    (leb 9 c && leb c 13)
    || nat_eq c 32
    || nat_eq c 0xa0
    || nat_eq c 0x1680
    || (leb 0x2000 c && leb c 0x200a)
    || nat_eq c 0x2028
    || nat_eq c 0x2029
    || nat_eq c 0x202f
    || nat_eq c 0x205f
    || nat_eq c 0x3000
    || nat_eq c 0xfeff

-- token.replaceAll("'", `'\''`)
abbrev pub escape_quotes : List ℕ → List ℕ
escape_quotes [] = []
escape_quotes (c ∷ cs) =
    let rest = escape_quotes cs in
    if nat_eq c b'\'' then b'\'' ∷ b'\\' ∷ b'\'' ∷ b'\'' ∷ rest else c ∷ rest

abbrev pub is_bare : List ℕ → Bool
is_bare [] = false
is_bare (c ∷ cs) = all is_safe (c ∷ cs)

unfoldable pub quote_token : List ℕ → List ℕ
quote_token token = if is_bare token then token else b'\'' ∷ escape_quotes token ++ b'\'' ∷ []

-- join(' ')
abbrev pub join_spaces : List (List ℕ) → List ℕ
join_spaces [] = []
join_spaces (t ∷ []) = t
join_spaces (t ∷ u ∷ us) = t ++ b' ' ∷ join_spaces (u ∷ us)

unfoldable pub quote_command_line : List ℕ → List (List ℕ) → List ℕ
unfolding quote_token
quote_command_line command args = join_spaces (map quote_token (command ∷ args))

-- The loop's variables; the tokens and the current token in order.
pub record Scan : Type 0 where
  pub tokens : List (List ℕ)
  pub current : List ℕ
  pub quote : Option ℕ
  pub started : Bool

pub data ParseError : Type 0 where
  unbalanced : ℕ → ParseError
  empty_line : ParseError

abbrev pub add : ℕ → Scan → Scan
add c s = record s { current = s.current ++ c ∷ [] }

abbrev pub begin_token : Scan → Scan
begin_token s = record s { started = true }

abbrev pub push_token : Scan → Scan
push_token s =
    if s.started
    then record s { tokens = s.tokens ++ s.current ∷ []; current = []; started = false }
    else s

-- What a round of the loop does at `c`: take it, or skip it and take the next one (`skip`).
pub data Round : Type 0 where
  take_next : Scan → Round
  after : Scan → Round

-- Inside a quote `q`; `more` is whether another unit follows.
unfoldable pub in_quote : ℕ → ℕ → Bool → Scan → Round
in_quote q c more s =
    if nat_eq c q
    then after (record s { quote = none })
    else if nat_eq c b'\\' && (nat_eq q b'"' && more)
    then take_next s
    else after (add c s)

unfoldable pub outside : ℕ → Bool → Scan → Round
outside c more s =
    if nat_eq c b'\\' && more
    then take_next (begin_token s)
    else if nat_eq c b'\'' || nat_eq c b'"'
    then after (begin_token (record s { quote = some c }))
    else if is_space c
    then after (push_token s)
    else after (begin_token (add c s))

abbrev pub has_more : List ℕ → Bool
has_more [] = false
has_more (c ∷ cs) = true

unfoldable pub round : Option ℕ → ℕ → Bool → Scan → Round
unfolding in_quote outside
round (some q) c more s = in_quote q c more s
round none c more s = outside c more s

-- The loop; `taken` is whether the next unit is taken as it is, behind a backslash.
unfoldable pub scan : Bool → List ℕ → Scan → Scan
scan taken [] s = s
scan true (c ∷ cs) s = scan false cs (add c s)
scan false (c ∷ cs) s = elim (round s.quote c (has_more cs) s) [
  | take_next s' ↦ scan true cs s'
  | after s' ↦ scan false cs s'
]

abbrev pub command_of : List (List ℕ) → Result ParseError (List ℕ × List (List ℕ))
command_of [] = err empty_line
command_of (command ∷ args) = ok (command, args)

abbrev pub finish : Scan → Result ParseError (List ℕ × List (List ℕ))
finish s = elim s.quote [ some q ↦ err (unbalanced q) | none ↦ command_of (push_token s).tokens ]

abbrev pub begin : Scan
begin = record { tokens = []; current = []; quote = none; started = false }

unfoldable pub parse_command_line : List ℕ → Result ParseError (List ℕ × List (List ℕ))
unfolding scan round
parse_command_line text = finish (scan false text begin)
