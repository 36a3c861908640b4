-- ===== src/Calculator.antt =====
-- internal/calculator/calculator.go: `Analyze`, which turns utilization into a recommendation, over
-- any `Floats`. int32 sums wrap; an int is an integer. `ComputePercentile` is in `Percentile`.
use ovro.Prelude.Int.{◌-ℤ◌, wrap32, ltb_ℤ, leb_ℤ, pos, ℤ}
use ovro.Floats.{Floats}
use ovro.Types.{upsize, downsize, Direction}
pub mod Percentile
pub mod Bounds
use ovro.Prelude.{false, true, some, none, ◌||◌, ◌&&◌, if◌then◌else◌, Option, Bool, String, ◌<>◌}

pub record AnalysisInput (F : Type 0) : Type 0 where
  pub current_cpu_cores : ℤ
  pub current_memory_gib : ℤ
  pub cpu_p95_percent : F
  pub memory_p95_percent : F
  pub cpu_max_percent : F
  pub memory_max_percent : F
  pub headroom_percent : ℤ
  pub min_cpu_savings : ℤ
  pub min_memory_savings_gib : ℤ
  pub upsize_threshold_pct : ℤ
  pub lookback_days : ℤ

pub record AnalysisResult : Type 0 where
  pub direction : Direction
  pub recommended_cpu_cores : ℤ
  pub recommended_memory_gib : ℤ
  pub cpu_savings : ℤ
  pub memory_savings : ℤ
  pub reason : String

-- The two clamps of a downsize: at least 1, and at most what the VM has.
unfoldable pub clamp_down : ℤ → ℤ → ℤ
clamp_down recommended current =
    let raised = if ltb_ℤ recommended (pos 1) then pos 1 else recommended in
    if leb_ℤ current raised then current else raised

-- The clamp of an upsize: at least what the VM has.
unfoldable pub clamp_up : ℤ → ℤ → ℤ
clamp_up recommended current = if leb_ℤ recommended current then current else recommended

-- `%d` and `%.1f%%` are the printers of the language; `show` is the first.
module _ (Fl : Floats) (show : ℤ → String) where
  open Fl use {F}

  abbrev hundred : F
  hundred = Fl.of_int (pos 100)

  -- `float64(current) * percent / 100.0`.
  unfoldable pub usage : ℤ → F → F
  usage current percent = Fl.div (Fl.mul (Fl.of_int current) percent) hundred

  unfoldable pub headroom_multiplier : ℤ → F
  headroom_multiplier headroom = Fl.add (Fl.of_int (pos 1)) (Fl.div (Fl.of_int headroom) hundred)

  -- From the two ceilings on: clamp, subtract, and compare with the thresholds.
  unfoldable pub downsize_to : AnalysisInput F → ℤ → ℤ → Option AnalysisResult
  downsize_to i cpu_ceiling memory_ceiling =
      let cpu = clamp_down cpu_ceiling i.current_cpu_cores in
      let memory = clamp_down memory_ceiling i.current_memory_gib in
      let cpu_savings = wrap32 (i.current_cpu_cores -ℤ cpu) in
      let memory_savings = wrap32 (i.current_memory_gib -ℤ memory) in
      if ltb_ℤ cpu_savings i.min_cpu_savings || ltb_ℤ memory_savings i.min_memory_savings_gib
      then none
      else some (record {
        direction = downsize;
        recommended_cpu_cores = cpu;
        recommended_memory_gib = memory;
        cpu_savings = cpu_savings;
        memory_savings = memory_savings;
        reason =
            "CPU only "
            <> Fl.format1 i.cpu_p95_percent
            <> "% utilized (P95 over "
            <> show i.lookback_days
            <> "d), can save "
            <> show cpu_savings
            <> " cores";
      })

  unfoldable pub analyze_downsize : AnalysisInput F → Option AnalysisResult
  unfolding downsize_to
  analyze_downsize i =
      let multiplier = headroom_multiplier i.headroom_percent in
      downsize_to i
        (Fl.ceil_int32 (Fl.mul (usage i.current_cpu_cores i.cpu_p95_percent) multiplier))
        (Fl.ceil_int32 (Fl.mul (usage i.current_memory_gib i.memory_p95_percent) multiplier))

  -- `a >= threshold`.
  abbrev pub reaches : F → F → Bool
  reaches a threshold = Fl.at_most threshold a

  unfoldable pub is_spike : F → F → F → Bool
  is_spike max p95 threshold = reaches max threshold && Fl.less p95 threshold

  -- The `switch` over the two spikes.
  unfoldable pub upsize_reason : Bool → Bool → AnalysisInput F → String
  upsize_reason true true i =
      "CPU spikes to "
      <> Fl.format1 i.cpu_max_percent
      <> "% and memory spikes to "
      <> Fl.format1 i.memory_max_percent
      <> "% (sustained P95: "
      <> Fl.format1 i.cpu_p95_percent
      <> "%/"
      <> Fl.format1 i.memory_p95_percent
      <> "% over "
      <> show i.lookback_days
      <> "d)"
  upsize_reason true false i =
      "CPU spikes to "
      <> Fl.format1 i.cpu_max_percent
      <> "% (sustained P95: "
      <> Fl.format1 i.cpu_p95_percent
      <> "% over "
      <> show i.lookback_days
      <> "d)"
  upsize_reason false true i =
      "Memory spikes to "
      <> Fl.format1 i.memory_max_percent
      <> "% (sustained P95: "
      <> Fl.format1 i.memory_p95_percent
      <> "% over "
      <> show i.lookback_days
      <> "d)"
  upsize_reason false false i =
      "CPU at "
      <> Fl.format1 i.cpu_p95_percent
      <> "% sustained utilization (P95 over "
      <> show i.lookback_days
      <> "d)"

  -- From the two ceilings on.
  unfoldable pub upsize_to : AnalysisInput F → ℤ → ℤ → Option AnalysisResult
  upsize_to i cpu_ceiling memory_ceiling =
      let cpu = clamp_up cpu_ceiling i.current_cpu_cores in
      let memory = clamp_up memory_ceiling i.current_memory_gib in
      let cpu_increase = wrap32 (cpu -ℤ i.current_cpu_cores) in
      let memory_increase = wrap32 (memory -ℤ i.current_memory_gib) in
      let threshold = Fl.of_int i.upsize_threshold_pct in
      if ltb_ℤ cpu_increase i.min_cpu_savings && ltb_ℤ memory_increase i.min_memory_savings_gib
      then none
      else some (record {
        direction = upsize;
        recommended_cpu_cores = cpu;
        recommended_memory_gib = memory;
        cpu_savings = wrap32 (pos 0 -ℤ cpu_increase);
        memory_savings = wrap32 (pos 0 -ℤ memory_increase);
        reason =
            upsize_reason (is_spike i.cpu_max_percent i.cpu_p95_percent threshold)
              (is_spike i.memory_max_percent i.memory_p95_percent threshold) i;
      })

  unfoldable pub analyze_upsize : AnalysisInput F → Option AnalysisResult
  unfolding upsize_to
  analyze_upsize i =
      let cpu_pct = Fl.max i.cpu_p95_percent i.cpu_max_percent in
      let memory_pct = Fl.max i.memory_p95_percent i.memory_max_percent in
      upsize_to i (Fl.ceil_int32 (Fl.div (usage i.current_cpu_cores cpu_pct) Fl.point_seventy))
        (Fl.ceil_int32 (Fl.div (usage i.current_memory_gib memory_pct) Fl.point_seventy))

  -- Whether one of the four percentages reaches the threshold.
  unfoldable pub is_overloaded : AnalysisInput F → Bool
  is_overloaded i =
      let threshold = Fl.of_int i.upsize_threshold_pct in
      reaches i.cpu_p95_percent threshold
      || reaches i.memory_p95_percent threshold
      || reaches i.cpu_max_percent threshold
      || reaches i.memory_max_percent threshold

  unfoldable pub analyze : AnalysisInput F → Option AnalysisResult
  unfolding analyze_upsize analyze_downsize is_overloaded
  analyze i = if is_overloaded i then analyze_upsize i else analyze_downsize i
