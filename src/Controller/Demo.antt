-- ===== src/Controller/Demo.antt =====
-- rightsizingrecommendation_controller.go: the synthetic recommendations of the demo mode, and `abs`.
use ovro.Calculator.{AnalysisResult}
use ovro.Prelude.Int.{◌-ℤ◌, ◌*ℤ◌, wrap32, ltb_ℤ, quot, pos, ℤ}
use ovro.Floats.{Floats}
use ovro.Types.{upsize, downsize, Direction}
use Prim.Native.Char.{code}
use ovro.Prelude.{◌==◌, ◌%◌, ◌+◌, if◌then◌else◌, ℕ, String}

-- The sum of the code points of a name, the source's `h`; an int that does not overflow.
abbrev pub code_sum : String → ℕ
code_sum String.[] = 0
code_sum (String.◌∷◌ c s) = code c + code_sum s

unfoldable pub demo_direction : String → Direction
demo_direction vm_name = if code_sum vm_name % 2 == 0 then downsize else upsize

-- `demoRecommendedCPU` and `demoRecommendedMem`, which are the same function.
abbrev pub demo_size : Direction → ℤ → ℤ
demo_size downsize current = let half = quot current 2 in if ltb_ℤ half (pos 1) then pos 1 else half
demo_size upsize current = wrap32 (current *ℤ pos 2)

unfoldable pub demo_recommended_cpu : ℤ → String → ℤ
unfolding demo_direction
demo_recommended_cpu current vm_name = demo_size (demo_direction vm_name) current

unfoldable pub demo_recommended_mem : ℤ → String → ℤ
unfolding demo_direction
demo_recommended_mem current vm_name = demo_size (demo_direction vm_name) current

unfoldable pub abs : ℤ → ℤ
abs n = if ltb_ℤ n (pos 0) then wrap32 (pos 0 -ℤ n) else n

-- What the querier of Prometheus returns.
pub record VmUtilization (F : Type 0) : Type 0 where
  pub current_cpu_cores : ℤ
  pub current_memory_gib : ℤ
  pub cpu_p95_percent : F
  pub memory_p95_percent : F
  pub cpu_max_percent : F
  pub memory_max_percent : F
  pub data_points : ℤ

module _ (Fl : Floats) where
  open Fl use {F}

  -- The percentages of the two directions.
  abbrev pub demo_percent : Direction → ℕ → ℕ → F
  demo_percent downsize a b = Fl.of_int (pos a)
  demo_percent upsize a b = Fl.of_int (pos b)

  unfoldable pub demo_utilization : ℤ → ℤ → String → VmUtilization F
  unfolding demo_direction
  demo_utilization cpu_cores memory_gib vm_name =
      let d = demo_direction vm_name in
      record {
        current_cpu_cores = cpu_cores;
        current_memory_gib = memory_gib;
        cpu_p95_percent = demo_percent d 25 92;
        memory_p95_percent = demo_percent d 30 88;
        cpu_max_percent = demo_percent d 45 98;
        memory_max_percent = demo_percent d 50 95;
        data_points = pos 20160;
      }

  unfoldable pub demo_result : ℤ → ℤ → String → AnalysisResult
  unfolding demo_recommended_cpu demo_recommended_mem
  demo_result cpu_cores memory_gib vm_name =
      let cpu = demo_recommended_cpu cpu_cores vm_name in
      let memory = demo_recommended_mem memory_gib vm_name in
      record {
        direction = demo_direction vm_name;
        recommended_cpu_cores = cpu;
        recommended_memory_gib = memory;
        cpu_savings = wrap32 (cpu_cores -ℤ cpu);
        memory_savings = wrap32 (memory_gib -ℤ memory);
        reason = "";
      }
