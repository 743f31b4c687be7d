-- ===== src/Prelude/Maps.antt =====
-- Finite maps keyed by texts, as functions: what `INSERT`, `UPDATE` and `DELETE` do to a table with
-- that key, and what an assignment does to a Go map.
use Prim.Native.String.{String}
use mathlib.Core.Path.{◌≡◌}
use mathlib.Core.Logic.{◌≢◌}
use mathlib.Core.Option.{Option, none, some}
use native.Mathlib.Omega.{arith}
use text.Mathlib.TextEquality.{eq_iff}
use text.Mathlib.TextPositions.{eq_refl}
use golang_cms.Prelude.Tests.{◌=s=◌, if◌then◌else◌}

abbrev pub Table {ℓ} : Type ℓ → Type ℓ
Table V = String → Option V

module _ {ℓ} {V : Type ℓ} where
  unfoldable pub put : String → V → Table V → Table V
  put k v t j = if k =s= j then some v else t j

  unfoldable pub remove : String → Table V → Table V
  remove k t j = if k =s= j then none else t j

  pub put_self : (k : String) (v : V) (t : Table V) → put k v t k ≡ some v
  unfolding put
  put_self k v t = simp eq_refl

  pub put_other : (k j : String) (v : V) (t : Table V) → k ≢ j → put k v t j ≡ t j
  unfolding put
  put_other k j v t h = ground (arith, eq_iff k j)
