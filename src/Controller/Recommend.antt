-- ===== src/Controller/Recommend.antt =====
-- rightsizingrecommendation_controller.go: `Reconcile`, in the parts of the source's order: the
-- policy, the VM, the analysis, the new or the known recommendation, and the automatic application.
use ovro.Server.{gibibytes, key}
use ovro.Controller.{SizedVm}
use ovro.Types.Policy.{PolicySpec}
use ovro.Platform.{found, unavailable, not_found, Platform}
use ovro.Calculator.{analyze, AnalysisInput, AnalysisResult}
use ovro.Prelude.Int.{◌*ℤ◌, ltb_ℤ, wrap64, pos, ℤ}
use ovro.Controller.Demo.{demo_result, demo_utilization, abs, VmUtilization}
use ovro.Types.{
  pending, Time, RecommendationStatus, empty_status, is_awaiting_approval,
  is_applied_pending_restart, Recommendation, gi, RecommendationSpec, MetricsSnapshot, is_applied,
  SavingsSpec, ResourceSpec, NamespacedName, RecommendationState,
}
use ovro.Floats.{Floats}
use ovro.Prelude.{true, ok, err, some, none, if◌then◌else◌, false, ◌<>◌, ◌||◌, Result, Bool, String}

-- The states in which a recommendation is neither deleted nor updated.
abbrev pub is_kept : RecommendationState → Bool
is_kept s = is_applied s || is_applied_pending_restart s || is_awaiting_approval s

-- What was found out of a VM: the utilization and the result of the analysis.
pub record Analysis (F : Type 0) : Type 0 where
  pub utilization : VmUtilization F
  pub result : AnalysisResult

-- The `PrometheusQuerier`: name, namespace, days, cores and bytes.
abbrev pub Querier : Type 0 → Type 0 → Type 0
Querier W F = String → String → ℤ → ℤ → ℤ → W → Result (VmUtilization F)

-- Half of the minutes of a week.
abbrev pub min_data_points : ℤ
min_data_points = pos 5040

-- How the analysis ends: nothing to report, the querier failed, or a result.
pub data Found (F : Type 0) : Type 0 where
  no_metrics : Found F
  no_action : Found F
  analysed : Analysis F → Found F

module _ (Fl : Floats) (show : ℤ → String) (P : Platform Fl.F) where
  open Fl use {F}

  unfoldable pub analysis_input : PolicySpec → SizedVm → VmUtilization F → AnalysisInput F
  analysis_input policy vm u = record {
    current_cpu_cores = vm.cpu_cores;
    current_memory_gib = vm.memory_gib;
    cpu_p95_percent = u.cpu_p95_percent;
    memory_p95_percent = u.memory_p95_percent;
    cpu_max_percent = u.cpu_max_percent;
    memory_max_percent = u.memory_max_percent;
    headroom_percent = policy.algorithm.headroom_percent;
    min_cpu_savings = policy.thresholds.min_cpu_savings;
    min_memory_savings_gib = gibibytes P policy.thresholds.min_memory_savings;
    upsize_threshold_pct = policy.thresholds.upsize_utilization_percent;
    lookback_days = policy.lookback_days;
  }

  -- Too few data points, and an analysis without a result, end alike.
  unfoldable pub analyse_metrics : PolicySpec → SizedVm → VmUtilization F → Found F
  unfolding analysis_input
  analyse_metrics policy vm u =
      let sized = record u {
        current_cpu_cores = vm.cpu_cores;
        current_memory_gib = vm.memory_gib;
      } in
      let found_out : Found F = elim (analyze Fl show (analysis_input policy vm sized)) [
        | none ↦ no_action
        | some result ↦ analysed (record { utilization = sized; result = result })
      ] in
      if ltb_ℤ u.data_points min_data_points then no_action else found_out

  unfoldable pub analyse :
      Bool → Querier P.World F → PolicySpec → SizedVm → String → String → P.World → Found F
  unfolding analyse_metrics
  analyse true query policy vm name namespace w = analysed (record {
    utilization = demo_utilization Fl vm.cpu_cores vm.memory_gib name;
    result = demo_result Fl vm.cpu_cores vm.memory_gib name;
  })
  analyse false query policy vm name namespace w =
      let bytes = wrap64 (vm.memory_gib *ℤ pos 1073741824) in
      elim (query name namespace policy.lookback_days vm.cpu_cores bytes w) [
        | err e ↦ no_metrics
        | ok u ↦ analyse_metrics policy vm u
      ]

  abbrev pub rec_key : String → String → NamespacedName
  rec_key name namespace = key namespace ("vm-" <> name)

  -- `deleteExistingRecommendation`. A read that fails deletes nothing.
  unfoldable pub delete_existing : String → String → P.World → P.World
  delete_existing name namespace w = elim (P.get_rec (rec_key name namespace) w) [
    | not_found ↦ w
    | unavailable e ↦ w
    | found rec ↦ if is_kept rec.status.state then w else (P.delete_rec rec w).1
  ]

  -- `float64` rounded to one decimal.
  unfoldable pub round1 : F → F
  round1 v = Fl.div (Fl.round (Fl.mul v (Fl.of_int (pos 10)))) (Fl.of_int (pos 10))

  -- The parts of the specification that both branches write.
  unfoldable pub size_of : ℤ → ℤ → ResourceSpec
  size_of cores memory_gib = record {
    cpu = record { cores = cores; sockets = pos 1; threads = pos 1 };
    memory = gi memory_gib;
  }

  unfoldable pub savings_of : AnalysisResult → SavingsSpec
  savings_of result = record { cpu = result.cpu_savings; memory = gi (abs result.memory_savings) }

  unfoldable pub metrics_of : PolicySpec → VmUtilization F → MetricsSnapshot F
  unfolding round1
  metrics_of policy u = record {
    lookback_days = policy.lookback_days;
    cpu_p95_percent = round1 u.cpu_p95_percent;
    memory_p95_percent = round1 u.memory_p95_percent;
    cpu_max_percent = round1 u.cpu_max_percent;
    memory_max_percent = round1 u.memory_max_percent;
  }

  -- A new recommendation. `HotplugCapable` is not given, and so it is false.
  unfoldable pub new_recommendation :
      PolicySpec → SizedVm → Analysis F → String → String → Recommendation F
  unfolding size_of savings_of metrics_of
  new_recommendation policy vm a name namespace = record {
    meta = rec_key name namespace;
    spec = record {
      virtual_machine_ref = record { name = name; namespace = namespace };
      direction = a.result.direction;
      current = size_of vm.cpu_cores vm.memory_gib;
      recommended = size_of a.result.recommended_cpu_cores a.result.recommended_memory_gib;
      savings = savings_of a.result;
      metrics = metrics_of policy a.utilization;
      hotplug_capable = false;
      reason = a.result.reason;
    };
    status = empty_status;
  }

  -- The new findings in a recommendation that is there. The current size stays as it was.
  unfoldable pub with_findings :
      PolicySpec → Analysis F → RecommendationSpec F → RecommendationSpec F
  unfolding size_of savings_of metrics_of
  with_findings policy a spec = record spec {
    direction = a.result.direction;
    recommended = size_of a.result.recommended_cpu_cores a.result.recommended_memory_gib;
    savings = savings_of a.result;
    metrics = metrics_of policy a.utilization;
    reason = a.result.reason;
  }

-- The ages at which an approval is reminded of, and lapses: 7 and 14 days.
abbrev pub reminder_age : Time
reminder_age = 604800000000000

abbrev pub expiry_age : Time
expiry_age = 1209600000000000

-- The status after an approval that lapsed.
abbrev pub expired_status : RecommendationStatus → RecommendationStatus
expired_status s = record s {
  state = pending;
  owner = "";
  approval_token = "";
  notified_at = none;
  reminder_sent_at = none;
}

-- The context of an error, over an answer of the API server.
abbrev pub in_context {ℓ} : {A : Type ℓ} → String → Result A → Result A
in_context text (ok a) = ok a
in_context text (err e) = err (text <> e)
