-- ===== src/Proxy/Frames/Chunks.antt =====
-- The frames of a stream do not depend on how it is cut into chunks.
use mcprelay.Base.{
  ℕ, ◌≡◌, refl, sym, ap, ◌∙◌, inl, inr, Bool, true, false, List, [], ◌∷◌, ◌++◌, map, filter, nat_eq,
  arith, Bool-cases,
}
use mcprelay.Identity.{skip_spaces, trim_end}
use mcprelay.Proxy.Frames.{
  split_newline, put_front, cut, is_filled, lines_of, split_lines, push_all,
}

-- The whole stream.
abbrev pub join_chunks : List (List ℕ) → List ℕ
join_chunks [] = []
join_chunks (c ∷ cs) = c ++ join_chunks cs

append_nil : (xs : List ℕ) → xs ++ [] ≡ xs
append_nil [] = refl
append_nil (x ∷ xs) = ap (λ (ys : List ℕ). x ∷ ys) (append_nil xs)

append_assoc : (xs ys zs : List ℕ) → (xs ++ ys) ++ zs ≡ xs ++ (ys ++ zs)
append_assoc [] ys zs = refl
append_assoc (x ∷ xs) ys zs = ap (λ (ws : List ℕ). x ∷ ws) (append_assoc xs ys zs)

-- The parts of a text behind those of its start.
abbrev behind : List (List ℕ) × List ℕ → List ℕ → List (List ℕ) × List ℕ
behind (parts, rest) ys = (parts ++ (split_newline (rest ++ ys)).0, (split_newline (rest ++ ys)).1)

behind-put_front :
    (c : ℕ) (parts : List (List ℕ) × List ℕ) (ys : List ℕ)
    → nat_eq c b'\n' ≡ false
    → put_front c (behind parts ys) ≡ behind (put_front c parts) ys
unfolding split_newline
behind-put_front c ([], rest) ys h = ground (arith, h)
behind-put_front c (p ∷ ps, rest) ys h = refl

behind-cut :
    (b : Bool) (c : ℕ) (parts : List (List ℕ) × List ℕ) (ys : List ℕ)
    → nat_eq c b'\n' ≡ b
    → cut b c (behind parts ys) ≡ behind (cut b c parts) ys
behind-cut true c (parts, rest) ys h = refl
behind-cut false c parts ys h = behind-put_front c parts ys h

split_newline-append : (xs ys : List ℕ) → split_newline (xs ++ ys) ≡ behind (split_newline xs) ys
unfolding split_newline
split_newline-append [] ys = refl
split_newline-append (x ∷ xs) ys =
    ap (cut (nat_eq x b'\n') x) (split_newline-append xs ys)
    ∙ behind-cut (nat_eq x b'\n') x (split_newline xs) ys refl

-- No newline is left in what is buffered.
cut-rest :
    (b : Bool) (c : ℕ) (parts : List (List ℕ) × List ℕ)
    → nat_eq c b'\n' ≡ b
    → split_newline parts.1 ≡ ([], parts.1)
    → split_newline (cut b c parts).1 ≡ ([], (cut b c parts).1)
unfolding split_newline
cut-rest true c (parts, rest) h k = k
cut-rest false c ([], rest) h k = ground (arith, h, k)
cut-rest false c (p ∷ ps, rest) h k = k

split_newline-rest : (xs : List ℕ) → split_newline (split_newline xs).1 ≡ ([], (split_newline xs).1)
unfolding split_newline
split_newline-rest [] = refl
split_newline-rest (x ∷ xs) =
    cut-rest (nat_eq x b'\n') x (split_newline xs) refl (split_newline-rest xs)

filter-append :
    (xs ys : List (List ℕ))
    → filter is_filled (xs ++ ys) ≡ filter is_filled xs ++ filter is_filled ys
filter-append [] ys = refl
filter-append (x ∷ xs) ys = elim (Bool-cases (is_filled x)) [
  | inl kept ↦ ground (arith, kept, filter-append xs ys)
  | inr dropped ↦ ground (arith, dropped, filter-append xs ys)
]

module _ (f : List ℕ → List ℕ) where
  map-append : (xs ys : List (List ℕ)) → map f (xs ++ ys) ≡ map f xs ++ map f ys
  map-append [] ys = refl
  map-append (x ∷ xs) ys = ap (λ (zs : List (List ℕ)). f x ∷ zs) (map-append xs ys)

lines_of-append : (xs ys : List (List ℕ)) → lines_of (xs ++ ys) ≡ lines_of xs ++ lines_of ys
unfolding lines_of
lines_of-append xs ys =
    let clean : List ℕ → List ℕ = λ line. trim_end (skip_spaces line) in
    ap (filter is_filled) (map-append clean xs ys) ∙ filter-append (map clean xs) (map clean ys)

abbrev to_lines : List (List ℕ) × List ℕ → List (List ℕ) × List ℕ
to_lines (parts, rest) = (lines_of parts, rest)

-- The frames of one chunk behind those of another.
split_lines-append :
    (buffer xs ys : List ℕ)
    → split_lines buffer (xs ++ ys) ≡ (
      (split_lines buffer xs).0 ++ (split_lines (split_lines buffer xs).1 ys).0,
      (split_lines (split_lines buffer xs).1 ys).1,
    )
unfolding split_lines
split_lines-append buffer xs ys =
    let (parts, rest) = split_newline (buffer ++ xs) in
    let (later, last) = split_newline (rest ++ ys) in
    ap (λ (zs : List ℕ). to_lines (split_newline zs)) (sym (append_assoc buffer xs ys))
    ∙ ap to_lines (split_newline-append (buffer ++ xs) ys)
    ∙ ap (λ (ls : List (List ℕ)). (ls, last)) (lines_of-append parts later)

split_lines-nothing :
    (buffer : List ℕ) → split_newline buffer ≡ ([], buffer) → split_lines buffer [] ≡ ([], buffer)
unfolding split_lines lines_of
split_lines-nothing buffer h = ap to_lines (ap split_newline (append_nil buffer) ∙ h)

split_lines-rest :
    (buffer chunk : List ℕ)
    → split_newline (split_lines buffer chunk).1 ≡ ([], (split_lines buffer chunk).1)
unfolding split_lines
split_lines-rest buffer chunk = split_newline-rest (buffer ++ chunk)

push_all-clean :
    (buffer : List ℕ) (chunks : List (List ℕ))
    → split_newline buffer ≡ ([], buffer)
    → push_all buffer chunks ≡ split_lines buffer (join_chunks chunks)
unfolding push_all
push_all-clean buffer [] h = sym (split_lines-nothing buffer h)
push_all-clean buffer (chunk ∷ chunks) h =
    let (lines, rest) = split_lines buffer chunk in
    ap (λ (more : List (List ℕ) × List ℕ). (lines ++ more.0, more.1))
      (push_all-clean rest chunks (split_lines-rest buffer chunk))
    ∙ sym (split_lines-append buffer chunk (join_chunks chunks))

-- The frames that are read from a stream, and what stays buffered, are those of the whole text,
-- however it is cut into chunks.
pub push_all-join_chunks :
    (chunks : List (List ℕ)) → push_all [] chunks ≡ split_lines [] (join_chunks chunks)
unfolding split_newline
push_all-join_chunks chunks = push_all-clean [] chunks refl
