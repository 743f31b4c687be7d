-- ===== src/Tests/Transfer.antt =====
-- The escape of CSV cells: runs and properties.
use Prim.Native.Char.{code}
use golang_cms.Prelude.{◌≡◌, ◌↔◌, refl}
use golang_cms.Transfer.{
  exports_formula, imports_formula, formula_safe, is_escaped, unescape, IsFormula, IsQuotedFormula,
  formula_safe-unescape, formula_safe-IsFormula,
}

escaped_cell : formula_safe "=1+2" ≡ "'=1+2"
unfolding formula_safe exports_formula
escaped_cell = refl

-- A quoted formula that a user has typed loses its quote.
lost_quote : unescape (formula_safe "'=1+2") ≡ "=1+2"
unfolding formula_safe exports_formula unescape is_escaped imports_formula
lost_quote = refl

formula_safe-unescape_example :
    (unescape (formula_safe "=1+2") ≡ "=1+2") ↔ (¬ (IsQuotedFormula "=1+2"))
formula_safe-unescape_example = formula_safe-unescape "=1+2"

formula_safe-IsFormula_example : ¬ (IsFormula (code "'"))
formula_safe-IsFormula_example = formula_safe-IsFormula "=1+2" "'" "=1+2" escaped_cell
