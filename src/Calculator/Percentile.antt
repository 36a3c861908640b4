-- ===== src/Calculator/Percentile.antt =====
-- calculator.go: `ComputePercentile`, linear interpolation between the two nearest ranks. The sort
-- is the standard library's, an insertion sort here by the order of `sort.Float64s`, in which NaN, the
-- value that is not equal to itself, comes first.
use ovro.Prelude.Int.{negsuc, eqb_ℤ, pos, ℤ}
pub mod Ranks
use ovro.Floats.{Floats}
use ovro.Prelude.{
  ◌&&◌, not, ◌||◌, Bool, [], none, length, ◌-◌, some, if◌then◌else◌, get_elem?, ◌∷◌, Option, List,
  ℕ,
}

module _ (Fl : Floats) where
  open Fl use {F}

  -- `sort.Float64Slice.Less`.
  unfoldable pub sorts_before : F → F → Bool
  sorts_before a b = Fl.less a b || not (Fl.at_most a a) && Fl.at_most b b

  unfoldable pub insert : F → List F → List F
  unfolding sorts_before
  insert x [] = x ∷ []
  insert x (y ∷ ys) = let rest = insert x ys in if sorts_before y x then y ∷ rest else x ∷ y ∷ ys

  -- `sort.Float64s` on the copy.
  unfoldable pub sort : List F → List F
  unfolding insert
  sort [] = []
  sort (x ∷ xs) = insert x (sort xs)

  -- `sorted[i]`, which panics out of range: `none`.
  abbrev pub index : List F → ℤ → Option F
  index xs (pos i) = get_elem? xs i
  index xs (negsuc i) = none

  -- The interpolation between the samples at the two ranks around a rank; `none` is a panic.
  unfoldable pub interpolate : List F → F → Option F
  interpolate sorted rank =
      let lower = Fl.floor_int rank in
      let upper = Fl.ceil_int rank in
      if eqb_ℤ lower upper then index sorted lower else elim (index sorted lower) [
        | none ↦ none
        | some a ↦ elim (index sorted upper) [
          | none ↦ none
          | some b ↦ some (Fl.add a (Fl.mul (Fl.sub rank (Fl.of_int lower)) (Fl.sub b a)))
        ]
      ]

  -- `float64(percentile) / 100.0 * float64(len(sorted)-1)`.
  abbrev pub rank : ℤ → ℕ → F
  rank percentile n =
      Fl.mul (Fl.div (Fl.of_int percentile) (Fl.of_int (pos 100))) (Fl.of_int (pos (n - 1)))

  unfoldable pub percentile_of : List F → ℤ → Option F
  unfolding interpolate
  percentile_of [] percentile = some (Fl.of_int (pos 0))
  percentile_of (x ∷ []) percentile = some x
  percentile_of (x ∷ y ∷ rest) percentile =
      interpolate (x ∷ y ∷ rest) (rank percentile (length (x ∷ y ∷ rest)))

  unfoldable pub compute_percentile : List F → ℤ → Option F
  unfolding percentile_of sort
  compute_percentile samples percentile = percentile_of (sort samples) percentile
