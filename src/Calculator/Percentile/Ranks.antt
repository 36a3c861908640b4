-- ===== src/Calculator/Percentile/Ranks.antt =====
-- The indices of `ComputePercentile` are in range.
use ovro.Prelude.Int.{eqb_ℤ, negsuc, ◌≤ℤ◌, pos, ℤ}
use ovro.Calculator.Percentile.{
  rank, percentile_of, interpolate, compute_percentile, index, sort, insert,
}
use ovro.Floats.Laws.{IsWithin, IsRounding}
use ovro.Floats.{Floats}
use ovro.Prelude.{
  subst, inr, zero, inl, suc, ◌-◌, get_elem?, Bool-cases, ◌<◌, ℕ, [], some, arith, ◌∷◌, ◌+◌, ◌≡◌,
  length, List, refl,
}

module _ (Fl : Floats) (L : IsRounding Fl) where
  open Fl use {F}

  length-insert : (x : F) (xs : List F) → length (insert Fl x xs) ≡ length xs + 1
  unfolding insert
  length-insert x [] = refl
  length-insert x (y ∷ ys) = ground (arith, length-insert x ys)

  pub length-sort : (xs : List F) → length (sort Fl xs) ≡ length xs
  unfolding sort
  length-sort [] = refl
  length-sort (x ∷ xs) = ground (arith, length-insert x (sort Fl xs), length-sort xs)

  get_elem?-some : (xs : List F) (i : ℕ) → i < length xs → (x : F) × (get_elem? xs i ≡ some x)
  get_elem?-some [] i h = absurd (omega arith)
  get_elem?-some (x ∷ xs) zero h = (x, refl)
  get_elem?-some (x ∷ xs) (suc i) h = get_elem?-some xs i (omega arith)

  -- An index from 0 to the last one.
  abbrev InRange : ℕ → ℤ → Type 0
  InRange n i = (pos 0 ≤ℤ i) × (i ≤ℤ pos (n - 1))

  index-some :
      (xs : List F) (i : ℤ)
      → 0 < length xs
      → InRange (length xs) i
      → (x : F) × (index Fl xs i ≡ some x)
  index-some xs (pos i) n (a, b) = get_elem?-some xs i (omega arith)
  index-some xs (negsuc i) n (a, b) = absurd (omega arith)

  interpolate-some :
      (xs : List F) (r : F)
      → 0 < length xs
      → InRange (length xs) (Fl.floor_int r)
      → InRange (length xs) (Fl.ceil_int r)
      → (x : F) × (interpolate Fl xs r ≡ some x)
  unfolding interpolate
  interpolate-some xs r n l u =
      let (a, e) = index-some xs (Fl.floor_int r) n l in
      let (b, f) = index-some xs (Fl.ceil_int r) n u in
      elim (Bool-cases (eqb_ℤ (Fl.floor_int r) (Fl.ceil_int r))) [
        | inl same ↦ (a, rw (same, interpolate) e)
        | inr differ ↦ (
          Fl.add a (Fl.mul (Fl.sub r (Fl.of_int (Fl.floor_int r))) (Fl.sub b a)),
          rw (differ, interpolate) (rw (e, f) refl),
        )
      ]

  le_ℤ_trans : (a b c : ℤ) → a ≤ℤ b → b ≤ℤ c → a ≤ℤ c
  le_ℤ_trans a b c h k = omega arith

  -- The two ranks around that of a percentage.
  rank-InRange :
      (p : ℤ) (n : ℕ)
      → pos 0 ≤ℤ p
      → p ≤ℤ pos 100
      → n < 9007199254740992
      → InRange n (Fl.floor_int (rank Fl p n)) × InRange n (Fl.ceil_int (rank Fl p n))
  rank-InRange p n a b small =
      let zero_ = Fl.of_int (pos 0) in
      let last = Fl.of_int (pos (n - 1)) in
      let r = rank Fl p n in
      let (low, high) = L.hundredth p a b in
      let (from, to) = L.mul_within _ (n - 1) low high in
      let zero_le = L.of_int_mono (pos 0) (pos 0) (omega arith) in
      let last_le = L.of_int_mono (pos (n - 1)) (pos (n - 1)) (omega arith) in
      let rising = L.of_int_mono (pos 0) (pos (n - 1)) (omega arith) in
      let at_zero : IsWithin Fl zero_ (n - 1) = record {
        small = omega arith;
        from = zero_le;
        to = rising;
      } in
      let at_r : IsWithin Fl r (n - 1) = record { small = omega arith; from = from; to = to } in
      let at_last : IsWithin Fl last (n - 1) = record {
        small = omega arith;
        from = rising;
        to = last_le;
      } in
      let first : Fl.floor_int zero_ ≡ pos 0 = L.floor_of_int 0 (omega arith) in
      let end : Fl.ceil_int last ≡ pos (n - 1) = L.ceil_of_int (n - 1) (omega arith) in
      let floor_from =
        subst (λ i. i ≤ℤ Fl.floor_int r) first (L.floor_mono zero_ r (n - 1) at_zero at_r from) in
      let ceil_to =
        subst (λ i. Fl.ceil_int r ≤ℤ i) end (L.ceil_mono r last (n - 1) at_r at_last to) in
      let between = L.floor-le-ceil r (n - 1) at_r in
      (
        (floor_from, le_ℤ_trans (Fl.floor_int r) (Fl.ceil_int r) (pos (n - 1)) between ceil_to),
        (le_ℤ_trans (pos 0) (Fl.floor_int r) (Fl.ceil_int r) floor_from between, ceil_to),
      )

  percentile_of-some :
      (xs : List F) (p : ℤ)
      → pos 0 ≤ℤ p
      → p ≤ℤ pos 100
      → length xs < 9007199254740992
      → (x : F) × (percentile_of Fl xs p ≡ some x)
  unfolding percentile_of
  percentile_of-some [] p a b small = (_, refl)
  percentile_of-some (x ∷ []) p a b small = (x, refl)
  percentile_of-some (x ∷ y ∷ xs) p a b small =
      let (l, u) = rank-InRange p (length (x ∷ y ∷ xs)) a b small in
      interpolate-some (x ∷ y ∷ xs) _ (omega arith) l u

  -- Under the stated rounding of float64, `ComputePercentile` of fewer than 2^53 samples and of a
  -- percentage from 0 to 100 returns: no index that it computes is out of range.
  pub compute_percentile-some :
      (samples : List F) (p : ℤ)
      → pos 0 ≤ℤ p
      → p ≤ℤ pos 100
      → length samples < 9007199254740992
      → (x : F) × (compute_percentile Fl samples p ≡ some x)
  unfolding compute_percentile
  compute_percentile-some samples p a b small =
      percentile_of-some (sort Fl samples) p a b (rw (length-sort samples) small)
