-- ===== src/Calculator/Bounds.antt =====
-- What every recommendation of `Analyze` satisfies, whatever the floats round to.
use ovro.Types.{upsize, downsize}
use ovro.Floats.{Floats}
use ovro.Prelude.Int.{
  wrap32-IsInt32, negsuc, -ℤ_parts, wrap32_of_IsInt32, ◌-ℤ◌, wrap32, IsInt32, ◌≤ℤ◌, pos, ℤ,
}
use ovro.Calculator.{
  is_overloaded, upsize_to, analyze, downsize_to, AnalysisResult, AnalysisInput, clamp_up,
  clamp_down,
}
use ovro.Prelude.{inr, inl, Bool-cases, false, true, subst, ◌⊎◌, some, String, ◌≡◌, arith}

-- The current size of the VM is an int32 that is not negative.
pub record IsSize (n : ℤ) : Type 0 where
  pub nonneg : pos 0 ≤ℤ n
  pub in_range : IsInt32 n

-- What a downsize keeps of a dimension: at least 1, and at most the current size.
clamp_down_bounds : (r c : ℤ) → pos 1 ≤ℤ c → (pos 1 ≤ℤ clamp_down r c) × (clamp_down r c ≤ℤ c)
unfolding clamp_down
clamp_down_bounds r c h = ground arith

-- What an upsize makes of a dimension: at least the current size, and still an int32.
clamp_up_bounds : (r c : ℤ) → IsInt32 r → IsInt32 c → (c ≤ℤ clamp_up r c) × IsInt32 (clamp_up r c)
unfolding clamp_up
clamp_up_bounds r c h k = ground arith

-- The difference of two sizes does not overflow, and neither does its negation.
wrap32_diff : (a b : ℤ) → IsInt32 a → pos 0 ≤ℤ b → b ≤ℤ a → wrap32 (a -ℤ b) ≡ a -ℤ b
wrap32_diff a b h p q = wrap32_of_IsInt32 (a -ℤ b) (in_range a b h p q)
  where
    in_range : (a b : ℤ) → IsInt32 a → pos 0 ≤ℤ b → b ≤ℤ a → IsInt32 (a -ℤ b)
    in_range (pos n) (pos m) h p q = ground (arith, -ℤ_parts (pos n) (pos m))
    in_range (negsuc n) (pos m) h p q = absurd (omega arith)
    in_range a (negsuc m) h p q = absurd (omega arith)

wrap32_neg : (a : ℤ) → IsInt32 a → pos 0 ≤ℤ a → wrap32 (pos 0 -ℤ a) ≡ pos 0 -ℤ a
unfolding ◌-ℤ◌
wrap32_neg (pos n) h p = wrap32_of_IsInt32 _ (ground arith)
wrap32_neg (negsuc n) h p = absurd (omega arith)

-- So an increase is exact, and so is its negation.
wrap32_increase :
    (a b : ℤ)
    → IsInt32 a
    → pos 1 ≤ℤ b
    → b ≤ℤ a
    → (wrap32 (a -ℤ b) ≡ a -ℤ b) × (wrap32 (pos 0 -ℤ (a -ℤ b)) ≡ pos 0 -ℤ (a -ℤ b))
wrap32_increase a b h p q =
    let diff = wrap32_diff a b h (omega arith) q in
    (
      diff,
      wrap32_neg (a -ℤ b) (subst IsInt32 diff (wrap32-IsInt32 _)) (omega (arith, -ℤ_parts a b)),
    )

-- A result that shrinks a VM of this input: sizes within the current ones, savings that are the
-- exact differences, and both savings thresholds met.
pub record IsReduction {F : Type 0} (i : AnalysisInput F) (r : AnalysisResult) : Type 0 where
  pub shrinks : r.direction ≡ downsize
  pub cpu_positive : pos 1 ≤ℤ r.recommended_cpu_cores
  pub cpu_within : r.recommended_cpu_cores ≤ℤ i.current_cpu_cores
  pub memory_positive : pos 1 ≤ℤ r.recommended_memory_gib
  pub memory_within : r.recommended_memory_gib ≤ℤ i.current_memory_gib
  pub cpu_exact : r.cpu_savings ≡ i.current_cpu_cores -ℤ r.recommended_cpu_cores
  pub memory_exact : r.memory_savings ≡ i.current_memory_gib -ℤ r.recommended_memory_gib
  pub cpu_enough : i.min_cpu_savings ≤ℤ r.cpu_savings
  pub memory_enough : i.min_memory_savings_gib ≤ℤ r.memory_savings

-- A result that enlarges a VM: sizes at least the current ones, savings that are the exact negated
-- increases, and one of the two thresholds met by the increase.
pub record IsEnlargement {F : Type 0} (i : AnalysisInput F) (r : AnalysisResult) : Type 0 where
  pub grows : r.direction ≡ upsize
  pub cpu_kept : i.current_cpu_cores ≤ℤ r.recommended_cpu_cores
  pub memory_kept : i.current_memory_gib ≤ℤ r.recommended_memory_gib
  pub cpu_exact : r.cpu_savings ≡ pos 0 -ℤ (r.recommended_cpu_cores -ℤ i.current_cpu_cores)
  pub memory_exact : r.memory_savings ≡ pos 0 -ℤ (r.recommended_memory_gib -ℤ i.current_memory_gib)
  pub enough :
      (i.min_cpu_savings ≤ℤ r.recommended_cpu_cores -ℤ i.current_cpu_cores)
      ⊎ (i.min_memory_savings_gib ≤ℤ r.recommended_memory_gib -ℤ i.current_memory_gib)

-- The VM has at least one core and one GiB, in an int32 each.
pub record IsSized {F : Type 0} (i : AnalysisInput F) : Type 0 where
  pub cpu_positive : pos 1 ≤ℤ i.current_cpu_cores
  pub cpu_in_range : IsInt32 i.current_cpu_cores
  pub memory_positive : pos 1 ≤ℤ i.current_memory_gib
  pub memory_in_range : IsInt32 i.current_memory_gib

module _ (Fl : Floats) (show : ℤ → String) where
  open Fl use {F}

  -- One of the four percentages, sustained or highest, is the threshold or above it.
  abbrev pub IsLoaded : AnalysisInput F → Type 0
  IsLoaded i =
      (Fl.at_most (Fl.of_int i.upsize_threshold_pct) i.cpu_p95_percent ≡ true)
      ⊎ (Fl.at_most (Fl.of_int i.upsize_threshold_pct) i.cpu_max_percent ≡ true)
      ⊎ (Fl.at_most (Fl.of_int i.upsize_threshold_pct) i.memory_p95_percent ≡ true)
      ⊎ (Fl.at_most (Fl.of_int i.upsize_threshold_pct) i.memory_max_percent ≡ true)

  is_overloaded-IsLoaded : (i : AnalysisInput F) → is_overloaded Fl show i ≡ true → IsLoaded i
  unfolding is_overloaded
  is_overloaded-IsLoaded i o = ground arith

  is_overloaded-not-IsLoaded :
      (i : AnalysisInput F) → is_overloaded Fl show i ≡ false → ¬ IsLoaded i
  unfolding is_overloaded
  is_overloaded-not-IsLoaded i o h = ground arith

  downsize_to-IsReduction :
      (i : AnalysisInput F) (a b : ℤ) (r : AnalysisResult)
      → IsSized i
      → downsize_to Fl show i a b ≡ some r
      → IsReduction i r
  unfolding downsize_to
  downsize_to-IsReduction i a b r h e =
      let (cpu_pos, cpu_le) = clamp_down_bounds a i.current_cpu_cores h.cpu_positive in
      let (mem_pos, mem_le) = clamp_down_bounds b i.current_memory_gib h.memory_positive in
      let cpu_diff = wrap32_diff i.current_cpu_cores _ h.cpu_in_range (omega arith) cpu_le in
      let mem_diff = wrap32_diff i.current_memory_gib _ h.memory_in_range (omega arith) mem_le in
      record {
        shrinks = ground arith;
        cpu_positive = ground arith;
        cpu_within = ground arith;
        memory_positive = ground arith;
        memory_within = ground arith;
        cpu_exact = ground arith;
        memory_exact = ground arith;
        cpu_enough = ground arith;
        memory_enough = ground arith;
      }

  upsize_to-IsEnlargement :
      (i : AnalysisInput F) (a b : ℤ) (r : AnalysisResult)
      → IsSized i
      → IsInt32 a
      → IsInt32 b
      → upsize_to Fl show i a b ≡ some r
      → IsEnlargement i r
  unfolding upsize_to
  upsize_to-IsEnlargement i a b r h p q e =
      let (cpu_le, cpu_int) = clamp_up_bounds a i.current_cpu_cores p h.cpu_in_range in
      let (mem_le, mem_int) = clamp_up_bounds b i.current_memory_gib q h.memory_in_range in
      let c = clamp_up a i.current_cpu_cores in
      let m = clamp_up b i.current_memory_gib in
      let (cpu_diff, cpu_neg) = wrap32_increase c _ cpu_int h.cpu_positive cpu_le in
      let (mem_diff, mem_neg) = wrap32_increase m _ mem_int h.memory_positive mem_le in
      record {
        grows = ground arith;
        cpu_kept = ground arith;
        memory_kept = ground arith;
        cpu_exact = ground arith;
        memory_exact = ground arith;
        enough = ground arith;
      }

  -- For a VM of at least one core and one GiB, both int32, and a ceiling that fits an int32: a
  -- result of `Analyze` enlarges the VM where one of the four percentages, the sustained and the
  -- highest use of the CPU and of the memory, is the threshold or above it, to sizes not below the
  -- current ones, and otherwise shrinks it, to sizes from 1 to the
  -- current ones; the savings are the exact differences, and meet the thresholds of the policy.
  pub analyze_sound :
      (i : AnalysisInput F) (r : AnalysisResult)
      → IsSized i
      → ((x : F) → IsInt32 (Fl.ceil_int32 x))
      → analyze Fl show i ≡ some r
      → (IsLoaded i × IsEnlargement i r) ⊎ (¬ IsLoaded i × IsReduction i r)
  unfolding analyze
  analyze_sound i r h range e = elim (Bool-cases (is_overloaded Fl show i)) [
    | inl o ↦ inl (
      is_overloaded-IsLoaded i o,
      upsize_to-IsEnlargement i _ _ r h (range _) (range _) (rw o at e),
    )
    | inr o ↦ inr (is_overloaded-not-IsLoaded i o, downsize_to-IsReduction i _ _ r h (rw o at e))
  ]
