-- ===== src/Policy/Glob.antt =====
-- src/policy/matchers.ts, globToRegex: a tool-name glob and the anchored regular expression that it
-- becomes, as the list of its atoms. An atom reads UTF-16 code units, since the expression has no
-- `u` flag, and `.` reads no line terminator, since it has no `s` flag.
pub mod Laws
use Prim.Native.Char.{code}
use mcprelay.Base.{
  ℕ, zero, suc, String, Bool, true, false, not, ◌||◌, List, [], ◌∷◌, ◌++◌, map, nat_eq, units,
  push_units, if◌then◌else◌,
}

pub data Atom : Type 0 where
  -- `.*`
  run : Atom
  -- `.`
  one : Atom
  -- an escaped character's code unit
  unit : ℕ → Atom

-- The atoms of one character of the glob.
abbrev character_atoms : ℕ → List Atom
character_atoms c =
    if nat_eq c b'*'
    then run ∷ []
    else if nat_eq c b'?'
    then one ∷ []
    else map unit (push_units c [])

unfoldable pub glob_to_regex : String → List Atom
glob_to_regex String.[] = []
glob_to_regex (String.◌∷◌ c s) = character_atoms (code c) ++ glob_to_regex s

-- What `.` reads: any unit but the line terminators.
abbrev pub is_dot : ℕ → Bool
is_dot u = not (nat_eq u 0xa || nat_eq u 0xd || nat_eq u 0x2028 || nat_eq u 0x2029)

-- `regex.test(text)` of the anchored expression.
unfoldable pub regex_matches : List Atom → List ℕ → Bool
regex_matches [] [] = true
regex_matches [] (u ∷ us) = false
regex_matches (run ∷ atoms) [] = regex_matches atoms []
regex_matches (run ∷ atoms) (u ∷ us) = elim (regex_matches atoms (u ∷ us)) [
  | true ↦ true
  | false ↦ elim (is_dot u) [ true ↦ regex_matches (run ∷ atoms) us | false ↦ false ]
]
regex_matches (one ∷ atoms) [] = false
regex_matches (one ∷ atoms) (u ∷ us) = elim (is_dot u) [
  | true ↦ regex_matches atoms us
  | false ↦ false
]
regex_matches (unit v ∷ atoms) [] = false
regex_matches (unit v ∷ atoms) (u ∷ us) = elim (nat_eq u v) [
  | true ↦ regex_matches atoms us
  | false ↦ false
]

unfoldable pub glob_matches : String → String → Bool
glob_matches pattern tool = regex_matches (glob_to_regex pattern) (units tool)
