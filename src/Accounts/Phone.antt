-- ===== src/Accounts/Phone.antt =====
-- internal/identity/service.go: `normalizeMainlandPhone`.
use Prim.Native.Char.{code}
use Prim.Native.String
use golang_cms.Prelude.{
  String, ℕ, suc, zero, Bool, true, false, ◌&&◌, Option, none, some, if◌then◌else◌, ◌==◌, leb,
  trim_space,
}

abbrev is_digit : ℕ → Bool
is_digit c = leb 48 c && leb c 57

-- Exactly so many digits.
unfoldable pub digits : ℕ → String → Bool
digits zero String.[] = true
digits zero (String.◌∷◌ c s) = false
digits (suc n) String.[] = false
digits (suc n) (String.◌∷◌ c s) = is_digit (code c) && digits n s

-- `1[3-9][0-9]{9}`
unfoldable pub is_national : String → Bool
unfolding digits
is_national (String.◌∷◌ c (String.◌∷◌ d s)) =
    code c == 49 && ((leb 51 (code d) && leb (code d) 57) && digits 9 s)
is_national _ = false

-- The optional group `(?:\+86)?`: a number that begins with a plus matches with it only.
unfoldable pub without_country : String → String
without_country (String.◌∷◌ c (String.◌∷◌ d (String.◌∷◌ e s))) =
    if code c == 43 && (code d == 56 && code e == 54)
    then s
    else String.◌∷◌ c (String.◌∷◌ d (String.◌∷◌ e s))
without_country s = s

-- `s[:n]` and `s[n:]`
unfoldable pub take_text : ℕ → String → String
take_text zero s = String.[]
take_text (suc n) String.[] = String.[]
take_text (suc n) (String.◌∷◌ c s) = String.◌∷◌ c (take_text n s)

unfoldable pub drop_text : ℕ → String → String
drop_text zero s = s
drop_text (suc n) String.[] = String.[]
drop_text (suc n) (String.◌∷◌ c s) = drop_text n s

-- `normalizeMainlandPhone`: the number with the country's code, and masked.
unfoldable pub normalize_phone : String → Option (String × String)
unfolding trim_space without_country is_national take_text drop_text
normalize_phone value =
    let national = without_country (trim_space value) in
    if is_national national
    then some (
      String.◌++◌ "+86" national,
      String.◌++◌ (take_text 3 national) (String.◌++◌ "****" (drop_text 7 national)),
    )
    else none
