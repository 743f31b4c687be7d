-- ===== src/Transfer.antt =====
-- internal/transfer: the escape of CSV cells that a spreadsheet would read as formulas. `formulaSafe`
-- adds a quote on export, `decodeCell` first takes one away on import.
use Prim.Native.Char.{Char, code}
use Prim.Native.String.{String}
use golang_cms.Prelude.{
  ℕ, Bool, true, false, ◌&&◌, ◌||◌, ◌==◌, if◌then◌else◌, ◌≡◌, ◌↔◌, ◌≢◌, refl, ap, sym, ◌∙◌, arith,
  Bool-cases, inl, inr, subst,
}

-- The characters of "=+-@" in `formulaSafe`.
unfoldable pub exports_formula : ℕ → Bool
exports_formula c = c == 61 || (c == 43 || (c == 45 || c == 64))

-- The characters of "=+-@" in `decodeCell`.
unfoldable pub imports_formula : ℕ → Bool
imports_formula c = c == 61 || (c == 43 || (c == 45 || c == 64))

-- `formulaSafe`; the first byte of a character beyond ASCII is none of the four.
unfoldable pub formula_safe : String → String
formula_safe String.[] = String.[]
formula_safe (String.◌∷◌ c s) =
    if exports_formula (code c) then String.◌∷◌ "'" (String.◌∷◌ c s) else String.◌∷◌ c s

-- `len(cell) > 1 && cell[0] == '\'' && strings.ContainsRune("=+-@", rune(cell[1]))`
unfoldable pub is_escaped : String → Bool
is_escaped String.[] = false
is_escaped (String.◌∷◌ c String.[]) = false
is_escaped (String.◌∷◌ c (String.◌∷◌ d s)) = code c == 39 && imports_formula (code d)

abbrev pub tail_of : String → String
tail_of String.[] = String.[]
tail_of (String.◌∷◌ c s) = s

-- The first step of `decodeCell`.
unfoldable pub unescape : String → String
unescape cell = if is_escaped cell then tail_of cell else cell

-- A character at which a spreadsheet begins a formula: an equals sign, a plus, a minus or an at sign.
pub data IsFormula : ℕ → Type 0 where
  equals : IsFormula 61
  plus : IsFormula 43
  minus : IsFormula 45
  at_sign : IsFormula 64

-- A quote and then a character that begins a formula.
abbrev pub IsQuotedFormula : String → Type 0
IsQuotedFormula v =
    (c : Char) × (d : Char) × (s : String) × (v ≡ String.◌∷◌ c (String.◌∷◌ d s))
    × (code c ≡ 39)
    × IsFormula (code d)

exports_formula-IsFormula : (n : ℕ) → IsFormula n → exports_formula n ≡ true
unfolding exports_formula
exports_formula-IsFormula n equals = refl
exports_formula-IsFormula n plus = refl
exports_formula-IsFormula n minus = refl
exports_formula-IsFormula n at_sign = refl

imports_formula-IsFormula : (n : ℕ) → IsFormula n → imports_formula n ≡ true
unfolding imports_formula
imports_formula-IsFormula n equals = refl
imports_formula-IsFormula n plus = refl
imports_formula-IsFormula n minus = refl
imports_formula-IsFormula n at_sign = refl

imported_IsFormula : (n : ℕ) → imports_formula n ≡ true → IsFormula n
unfolding imports_formula
imported_IsFormula n h = elim (Bool-cases (n == 61)) [
  | inl e ↦ let k : 61 ≡ n = ground arith in subst IsFormula k equals
  | inr e ↦ elim (Bool-cases (n == 43)) [
    | inl e2 ↦ let k : 43 ≡ n = ground arith in subst IsFormula k plus
    | inr e2 ↦ elim (Bool-cases (n == 45)) [
      | inl e3 ↦ let k : 45 ≡ n = ground arith in subst IsFormula k minus
      | inr e3 ↦ let k : 64 ≡ n = ground arith in subst IsFormula k at_sign
    ]
  ]
]

is_escaped-IsQuotedFormula : (v : String) → is_escaped v ≡ true → IsQuotedFormula v
unfolding is_escaped
is_escaped-IsQuotedFormula String.[] h = absurd (cc)
is_escaped-IsQuotedFormula (String.◌∷◌ c String.[]) h = absurd (cc)
is_escaped-IsQuotedFormula (String.◌∷◌ c (String.◌∷◌ d s)) h =
    let formula : imports_formula (code d) ≡ true = ground arith in
    (c, d, s, refl, ground arith, imported_IsFormula (code d) formula)

quoted_is_escaped : (v : String) → IsQuotedFormula v → is_escaped v ≡ true
unfolding is_escaped
quoted_is_escaped v (c, d, s, e, q, f) =
    let k = imports_formula-IsFormula (code d) f in
    subst (λ w. is_escaped w ≡ true) (sym e) (ground (arith, k))

shorter : (c : Char) (s : String) → s ≢ String.◌∷◌ c s
shorter c String.[] e = absurd (cc)
shorter c (String.◌∷◌ d r) e = shorter d r (ap tail_of e)

escaped-unescape :
    (v : String) → is_escaped v ≡ true → (unescape (formula_safe v) ≡ tail_of v) × (tail_of v ≢ v)
unfolding unescape formula_safe is_escaped exports_formula
escaped-unescape String.[] h = absurd (cc)
escaped-unescape (String.◌∷◌ c String.[]) h = absurd (cc)
escaped-unescape (String.◌∷◌ c (String.◌∷◌ d s)) h =
    let quote : code c ≡ 39 = ground arith in (ground (arith, quote), shorter c (String.◌∷◌ d s))

exports_formula-imports_formula : (n : ℕ) → exports_formula n ≡ true → imports_formula n ≡ true
unfolding exports_formula imports_formula
exports_formula-imports_formula n h = ground arith

plain-unescape : (v : String) → is_escaped v ≡ false → unescape (formula_safe v) ≡ v
unfolding unescape formula_safe is_escaped
plain-unescape String.[] h = refl
plain-unescape (String.◌∷◌ c s) h = elim (Bool-cases (exports_formula (code c))) [
  | inl formula ↦
      let back = exports_formula-imports_formula (code c) formula in rw formula (rw back refl)
  | inr plain ↦ rw plain (rw h refl)
]

-- A cell is taken back from its escape exactly if it does not itself begin with a quote before one of
-- the characters =, +, - and @.
pub formula_safe-unescape : (v : String) → (unescape (formula_safe v) ≡ v) ↔ (¬ (IsQuotedFormula v))
formula_safe-unescape v = (
  λ h quoted. (let (k, ne) = escaped-unescape v (quoted_is_escaped v quoted) in ne (sym k ∙ h)),
  λ free. elim (Bool-cases (is_escaped v)) [
    | inl e ↦ absurd (free (is_escaped-IsQuotedFormula v e))
    | inr e ↦ plain-unescape v e
  ],
)

abbrev head_code : String → ℕ
head_code String.[] = 0
head_code (String.◌∷◌ c s) = code c

not_quote : ¬ (IsFormula 39)
not_quote f = absurd (let k = exports_formula-IsFormula 39 f in unfold exports_formula in cc)

-- An escaped cell never begins with one of the characters =, +, - and @.
pub formula_safe-IsFormula :
    (v : String) (c : Char) (s : String) → formula_safe v ≡ String.◌∷◌ c s → ¬ (IsFormula (code c))
unfolding formula_safe
formula_safe-IsFormula String.[] c s h = absurd (cc)
formula_safe-IsFormula (String.◌∷◌ d r) c s h = elim (Bool-cases (exports_formula (code d))) [
  | inl formula ↦
      let k : 39 ≡ code c = ap head_code (rw formula at h) in
      subst (λ n. ¬ (IsFormula n)) k not_quote
  | inr plain ↦
      let k : code d ≡ code c = ap head_code (rw plain at h) in
      subst (λ n. ¬ (IsFormula n)) k
        λ f. absurd (let g = sym plain ∙ exports_formula-IsFormula (code d) f in cc)
]
