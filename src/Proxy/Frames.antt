-- ===== src/Proxy/Frames.antt =====
-- src/proxy/transports.ts, splitLines and FrameDecoder: how the bytes of a stream become frames. A
-- text is the list of its UTF-16 code units.
pub mod Chunks
use mcprelay.Base.{
  ℕ, Bool, true, false, not, List, [], ◌∷◌, ◌++◌, map, filter, nat_eq, if◌then◌else◌,
}
use mcprelay.Identity.{skip_spaces, trim_end}

abbrev pub put_front : ℕ → List (List ℕ) × List ℕ → List (List ℕ) × List ℕ
put_front c ([], rest) = ([], c ∷ rest)
put_front c (p ∷ ps, rest) = ((c ∷ p) ∷ ps, rest)

-- One unit before the parts of what follows it: a newline starts them anew.
abbrev pub cut : Bool → ℕ → List (List ℕ) × List ℕ → List (List ℕ) × List ℕ
cut true c (parts, rest) = ([] ∷ parts, rest)
cut false c parts = put_front c parts

-- text.split('\n'), its last part apart.
unfoldable pub split_newline : List ℕ → List (List ℕ) × List ℕ
split_newline [] = ([], [])
split_newline (c ∷ cs) = cut (nat_eq c b'\n') c (split_newline cs)

abbrev pub is_filled : List ℕ → Bool
is_filled [] = false
is_filled (c ∷ cs) = true

-- The lines of the parts: trimmed, the empty ones left out.
unfoldable pub lines_of : List (List ℕ) → List (List ℕ)
lines_of parts = filter is_filled (map (λ line. trim_end (skip_spaces line)) parts)

-- The frames of a chunk behind what is buffered, and what is buffered then.
unfoldable pub split_lines : List ℕ → List ℕ → List (List ℕ) × List ℕ
unfolding split_newline lines_of
split_lines buffer chunk =
    let (parts, rest) = split_newline (buffer ++ chunk) in (lines_of parts, rest)

-- FrameDecoder.push, of one chunk after another.
unfoldable pub push_all : List ℕ → List (List ℕ) → List (List ℕ) × List ℕ
unfolding split_lines
push_all buffer [] = ([], buffer)
push_all buffer (chunk ∷ chunks) =
    let (lines, rest) = split_lines buffer chunk in
    let (more, last) = push_all rest chunks in (lines ++ more, last)

-- What parsing a line gives, as JSON.parse and the SDK's deserializeMessage tell it.
pub data Parsed {ℓ} (M : Type ℓ) : Type ℓ where
  malformed rejected : Parsed M
  batch : Parsed M
  notification message : M → Parsed M

pub data FrameEvent {ℓ} (M : Type ℓ) : Type ℓ where
  on_error : FrameEvent M
  on_batch : List ℕ → FrameEvent M
  on_notification on_message : M → FrameEvent M

-- The handlers that a line calls, in order.
unfoldable pub process_line {ℓ} : {M : Type ℓ} → List ℕ → Parsed M → List (FrameEvent M)
process_line line malformed = on_error ∷ []
process_line line rejected = on_error ∷ []
process_line line batch = on_batch line ∷ []
process_line line (notification m) = on_notification m ∷ on_message m ∷ []
process_line line (message m) = on_message m ∷ []
