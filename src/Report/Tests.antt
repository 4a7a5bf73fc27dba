-- ===== src/Report/Tests.antt =====
-- A report on a small store.
use mcprelay.Base.{◌≡◌, refl, [], ◌∷◌}
use mcprelay.Report.Table.{widths, widen, widen_all, pad_cells, render, render_table}

-- Columns are as wide as their widest cell; spaces at the end of a line are cut.
table :
    render_table ("A" ∷ "TOOL" ∷ []) (("ann" ∷ "x" ∷ []) ∷ ("" ∷ "pay" ∷ []) ∷ [])
    ≡ "A    TOOL" ∷ "ann  x" ∷ "     pay" ∷ []
unfolding widths widen widen_all pad_cells render render_table
table = refl
