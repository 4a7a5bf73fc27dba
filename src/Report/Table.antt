-- ===== src/Report/Table.antt =====
-- src/report/report-cli.ts: the widths of the columns and the lines of the table. Lengths count
-- UTF-16 code units.
use Prim.Native.Char.{code}
use Prim.Native.String
use mcprelay.Base.{
  ℕ, zero, suc, ◌-◌, max, String, List, [], ◌∷◌, map, length, units, concat, if◌then◌else◌,
}
use mcprelay.Identity.{is_space}

-- The cells of one column, a missing one counted as empty.
abbrev pub cell_width : String → ℕ
cell_width cell = length (units cell)

-- Math.max of the titles and of each row, column by column.
unfoldable pub widen : List ℕ → List String → List ℕ
widen [] cells = []
widen (w ∷ ws) [] = w ∷ ws
widen (w ∷ ws) (cell ∷ cells) = max w (cell_width cell) ∷ widen ws cells

unfoldable pub widen_all : List ℕ → List (List String) → List ℕ
unfolding widen
widen_all ws [] = ws
widen_all ws (row ∷ rows) = widen_all (widen ws row) rows

unfoldable pub widths : List String → List (List String) → List ℕ
unfolding widen_all
widths header rows = widen_all (map cell_width header) rows

abbrev pub spaces : ℕ → String
spaces zero = ""
spaces (suc n) = String.◌++◌ " " (spaces n)

-- cell.padEnd(width)
abbrev pub pad_end : ℕ → String → String
pad_end width cell = String.◌++◌ cell (spaces (width - cell_width cell))

-- Each cell padded to the width of its column.
unfoldable pub pad_cells : List ℕ → List String → List String
pad_cells (w ∷ ws) (cell ∷ cells) = pad_end w cell ∷ pad_cells ws cells
pad_cells _ _ = []

-- cells.join('  ')
abbrev pub join_cells : List String → String
join_cells [] = ""
join_cells (s ∷ []) = s
join_cells (s ∷ t ∷ ss) = concat (s ∷ "  " ∷ join_cells (t ∷ ss) ∷ [])

abbrev pub trim_end : String → String
trim_end String.[] = ""
trim_end (String.◌∷◌ c text) = elim (trim_end text) [
  | String.[] ↦ if is_space (code c) then "" else String.◌∷◌ c ""
  | String.◌∷◌ d rest ↦ String.◌∷◌ c (String.◌∷◌ d rest)
]

unfoldable pub render : List ℕ → List String → String
unfolding pad_cells
render ws cells = trim_end (join_cells (pad_cells ws cells))

-- The header's line, and one for each row.
unfoldable pub render_table : List String → List (List String) → List String
unfolding widths render
render_table header rows =
    render (widths header rows) header ∷ map (render (widths header rows)) rows
