-- ===== src/Prelude/Sorting.antt =====
-- `sort.Strings`: the texts in ascending order, as an insertion sort. The Go library's sort is another
-- algorithm with the same result, since equal texts cannot be told apart.
use Prim.Native.Nat.{Ordering}
use Prim.Native.String.{String, compare}
use mathlib.Core.Path.{◌≡◌, refl, ◌∙◌}
use text.Mathlib.TextEquality.{eq_iff}
use mathlib.Core.Bool.{Bool, true, false, ◌||◌}
use mathlib.Core.List.{List, [], ◌∷◌}
use native.Mathlib.Omega.{arith}
use golang_cms.Prelude.Tests.{◌=s=◌, if◌then◌else◌}
use golang_cms.Prelude.Lists.{contains}

-- `a <= b` on Go's strings, which compare as their code points do.
abbrev pub text_le : String → String → Bool
text_le a b = elim (compare a b) [ Ordering.gt ↦ false | _ ↦ true ]

unfoldable pub insert_sorted : String → List String → List String
insert_sorted a [] = a ∷ []
insert_sorted a (x ∷ xs) = if text_le a x then a ∷ x ∷ xs else x ∷ insert_sorted a xs

unfoldable pub sort_strings : List String → List String
unfolding insert_sorted
sort_strings [] = []
sort_strings (x ∷ xs) = insert_sorted x (sort_strings xs)

pub contains-insert_sorted :
    (c a : String) (xs : List String) → contains c (insert_sorted a xs) ≡ (a =s= c || contains c xs)
unfolding insert_sorted contains
contains-insert_sorted c a [] = refl
contains-insert_sorted c a (x ∷ xs) = ground (arith, contains-insert_sorted c a xs)

pub contains-sort_strings :
    (c : String) (xs : List String) → contains c (sort_strings xs) ≡ contains c xs
unfolding sort_strings contains
contains-sort_strings c [] = refl
contains-sort_strings c (x ∷ xs) =
    ground (arith, contains-insert_sorted c x (sort_strings xs), contains-sort_strings c xs)

-- No text occurs twice.
abbrev pub Distinct : List String → Type 0
Distinct [] = Unit
Distinct (x ∷ xs) = (contains x xs ≡ false) × Distinct xs

pub insert_sorted-Distinct :
    (a : String) (xs : List String)
    → contains a xs ≡ false
    → Distinct xs
    → Distinct (insert_sorted a xs)
unfolding insert_sorted contains
insert_sorted-Distinct a [] h d = (refl, tt)
insert_sorted-Distinct a (x ∷ xs) h d =
    ground
      (arith, insert_sorted-Distinct a xs, contains-insert_sorted x a xs, eq_iff a x, eq_iff x a)

pub sort_strings-Distinct : (xs : List String) → Distinct xs → Distinct (sort_strings xs)
unfolding sort_strings
sort_strings-Distinct [] d = d
sort_strings-Distinct (x ∷ xs) d =
    insert_sorted-Distinct x (sort_strings xs) (contains-sort_strings x xs ∙ d.0)
      (sort_strings-Distinct xs d.1)
