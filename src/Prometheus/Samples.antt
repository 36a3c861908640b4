-- ===== src/Prometheus/Samples.antt =====
-- What the utilization says of the samples.
use ovro.Calculator.Percentile.Ranks.{compute_percentile-some}
use ovro.Prelude.Int.{pos, ℤ}
use ovro.Prometheus.{
  get_vm_metrics, VmMetrics, get_vm_utilization, Utilization, Client, to_percent, summarise,
  max_value, max_from,
}
use ovro.Floats.Laws.{◌⊑◌, IsNumber, IsRounding, IsOrdered}
use ovro.Floats.{Floats}
use ovro.Prelude.{
  subst, ◌∙◌, sym, if◌then◌else◌, ok, inr, some, inl, arith, [], ◌∷◌, Bool-cases, ◌≡◌, ◌<◌, map, ℕ,
  length, String, All, List, refl,
}

module _ (Fl : Floats) where
  open Fl use {F}

  module _ (L : IsOrdered Fl) where
    -- A number that is at least the start of the loop and all that it still reads.
    abbrev IsBound : F → F → List F → Type 0
    IsBound bound max values =
        (◌⊑◌ Fl max bound) × All (λ v. ◌⊑◌ Fl v bound) values × IsNumber Fl bound

    max_from_step :
        (max v : F) (values : List F)
        → max_from Fl max (v ∷ values) ≡ max_from Fl (if Fl.less max v then v else max) values
    unfolding max_from
    max_from_step max v values = refl

    max_from-IsBound :
        (max : F) (values : List F)
        → IsNumber Fl max
        → All (IsNumber Fl) values
        → IsBound (max_from Fl max values) max values
    unfolding max_from
    max_from-IsBound max [] m h = (m, tt, m)
    max_from-IsBound max (v ∷ values) m (n, h) = elim (Bool-cases (Fl.less max v)) [
      | inl e ↦
          let (low, all, num) = max_from-IsBound v values n h in
          let step : ◌⊑◌ Fl max v = ground (arith, L.less-not-le max v, L.le_total max v) in
          let same : max_from Fl v values ≡ max_from Fl max (v ∷ values) =
            sym (max_from_step max v values ∙ rw e refl) in
          subst (λ x. IsBound x max (v ∷ values)) same
            (L.le_trans max v _ step low, (low, all), num)
      | inr e ↦
          let (low, all, num) = max_from-IsBound max values m h in
          let step : ◌⊑◌ Fl v max = ground (arith, L.less-not-le max v, L.le_total max v) in
          let same : max_from Fl max values ≡ max_from Fl max (v ∷ values) =
            sym (max_from_step max v values ∙ rw e refl) in
          subst (λ x. IsBound x max (v ∷ values)) same
            (low, (L.le_trans v max _ step low, all), num)
    ]

    max_from_within :
        (max bound : F) (values : List F)
        → ◌⊑◌ Fl max bound
        → All (λ v. ◌⊑◌ Fl v bound) values
        → ◌⊑◌ Fl (max_from Fl max values) bound
    unfolding max_from
    max_from_within max bound [] m h = m
    max_from_within max bound (v ∷ values) m (n, h) = elim (Bool-cases (Fl.less max v)) [
      | inl e ↦ rw e (max_from_within v bound values n h)
      | inr e ↦ rw e (max_from_within max bound values m h)
    ]

    -- For an ordering of the numbers as float64 has it: of one or more samples that are all
    -- numbers, none is above the maximum, and the maximum is not above any bound of them all.
    pub max_value_lem :
        (v bound : F) (values : List F)
        → All (IsNumber Fl) (v ∷ values)
        → All (λ x. ◌⊑◌ Fl x bound) (v ∷ values)
        → All (λ x. ◌⊑◌ Fl x (max_value Fl (v ∷ values))) (v ∷ values)
          × (◌⊑◌ Fl (max_value Fl (v ∷ values)) bound)
    unfolding max_value
    max_value_lem v bound values (n, h) (m, k) =
        let (low, all, num) = max_from-IsBound v values n h in
        ((low, all), max_from_within v bound values m k)

  module _ (R : IsRounding Fl) where
    length-map : (f : F → F) (xs : List F) → length (map f xs) ≡ length xs
    length-map f [] = refl
    length-map f (x ∷ xs) = ground (arith, length-map f xs)

    length-to_percent : (xs : List F) (total : F) → length (to_percent Fl xs total) ≡ length xs
    unfolding to_percent
    length-to_percent xs total = elim (Bool-cases (Fl.at_most total (Fl.of_int (pos 0)))) [
      | inl e ↦ rw e refl
      | inr e ↦ rw e (length-map _ xs)
    ]

    summarise-some :
        (cpu memory : List F) (n : ℕ)
        → length cpu < 9007199254740992
        → length memory < 9007199254740992
        → (u : Utilization F) × (summarise Fl cpu memory n ≡ some u) × (u.data_points ≡ pos n)
    unfolding summarise
    summarise-some cpu memory n a b =
        let (p, e) = compute_percentile-some Fl R cpu (pos 95) (omega arith) (omega arith) a in
        let (q, f) = compute_percentile-some Fl R memory (pos 95) (omega arith) (omega arith) b in
        (
          record {
            cpu_p95_percent = p;
            memory_p95_percent = q;
            cpu_max_percent = max_value Fl cpu;
            memory_max_percent = max_value Fl memory;
            data_points = pos n;
          },
          rw (e, summarise) (rw f refl),
          refl,
        )

    module _ (show : ℤ → String) {W : Type 0} (c : Client W) where
      -- Under the stated rounding of float64 and for fewer than 2^53 samples, `GetVMUtilization` of
      -- a VM whose metrics were fetched returns a utilization without a panic, and counts as its
      -- data points the samples of the CPU.
      pub get_vm_utilization-some :
          (vm_name namespace : String) (lookback_days cpu_cores memory_bytes : ℤ) (w : W)
          (m : VmMetrics F)
          → get_vm_metrics Fl show c vm_name namespace lookback_days w ≡ ok m
          → length m.cpu_samples < 9007199254740992
          → length m.memory_samples < 9007199254740992
          → (u : Utilization F) × (get_vm_utilization Fl show c vm_name namespace lookback_days
                cpu_cores memory_bytes w
              ≡ some (ok u))
            × (u.data_points ≡ pos (length m.cpu_samples))
      unfolding get_vm_utilization
      get_vm_utilization-some vm_name namespace lookback_days cpu_cores memory_bytes w m e a b =
          let cpu = to_percent Fl m.cpu_samples (Fl.of_int cpu_cores) in
          let memory = to_percent Fl m.memory_samples (Fl.of_int memory_bytes) in
          let (u, f, points) =
            summarise-some cpu memory (length m.cpu_samples) (rw length-to_percent a)
              (rw length-to_percent b) in
          (u, rw (e, get_vm_utilization) (rw f refl), points)
