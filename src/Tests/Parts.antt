-- ===== src/Tests/Parts.antt =====
-- The parts alone: the analysis, the lifecycle, the lists and the dispatcher.
use ovro.Server.Access.Cache.{filter_by_namespace_access_lem}
use ovro.Notifier.Dispatch.{send_all_except-without}
use ovro.Prelude.Int.{wrap32-IsInt32, ◌+ℤ◌, ◌*ℤ◌, ◌-ℤ◌, wrap32, quot, pos, ℤ}
use ovro.Server.{key, notification_of}
use ovro.Platform.Memory.{memory}
use ovro.Tests.{with_pending, admin, waiting_web, shrink_web, show, server, coarse}
use ovro.Server.Access.{filter_by_namespace_access, can_user_access_namespace}
use ovro.Types.{downsize, Recommendation}
use ovro.Notifier.{Forwarder, send_all_except, Notification}
use ovro.Calculator.Bounds.{IsLoaded, analyze_sound, IsReduction, IsEnlargement, IsSized}
use ovro.Calculator.{clamp_down, headroom_multiplier, usage, analyze, AnalysisResult, AnalysisInput}
use ovro.Prelude.{◌⊎◌, ◌≡◌, some, none, [], Error, ◌∷◌, arith, Option, String, List, refl}

-- A VM of 8 cores and 16 GiB that uses a fifth of them.
abbrev idle : AnalysisInput ℤ
idle = record {
  current_cpu_cores = pos 8;
  current_memory_gib = pos 16;
  cpu_p95_percent = pos 20;
  memory_p95_percent = pos 20;
  cpu_max_percent = pos 30;
  memory_max_percent = pos 30;
  headroom_percent = pos 20;
  min_cpu_savings = pos 1;
  min_memory_savings_gib = pos 1;
  upsize_threshold_pct = pos 90;
  lookback_days = pos 30;
}

abbrev idle_result : AnalysisResult
idle_result = record {
  direction = downsize;
  recommended_cpu_cores = pos 1;
  recommended_memory_gib = pos 3;
  cpu_savings = pos 7;
  memory_savings = pos 13;
  reason = "CPU only some% utilized (P95 over nd), can save n cores";
}

idle-IsSized : IsSized idle
idle-IsSized = record {
  cpu_positive = omega arith;
  cpu_in_range = record { from_below = omega arith; from_above = omega arith };
  memory_positive = omega arith;
  memory_in_range = record { from_below = omega arith; from_above = omega arith };
}

idle_analysis : analyze coarse show idle ≡ some idle_result
unfolding analyze usage headroom_multiplier clamp_down quot wrap32 ◌-ℤ◌ ◌*ℤ◌ ◌+ℤ◌
idle_analysis = refl

analyze_sound_example :
    (IsLoaded coarse show idle × IsEnlargement idle idle_result)
    ⊎ (¬ IsLoaded coarse show idle × IsReduction idle idle_result)
analyze_sound_example =
    analyze_sound coarse show idle idle_result idle-IsSized (λ x. wrap32-IsInt32 x) idle_analysis

abbrev elsewhere : Recommendation ℤ
elsewhere = record shrink_web { meta = key "office" "db" }

filter_by_namespace_access_lem_example :
    filter_by_namespace_access server
      (some admin)
      (shrink_web ∷ elsewhere ∷ waiting_web ∷ [])
      with_pending
    ≡ shrink_web ∷ waiting_web ∷ []
unfolding can_user_access_namespace
filter_by_namespace_access_lem_example =
    filter_by_namespace_access_lem server (some admin) (shrink_web ∷ elsewhere ∷ waiting_web ∷ [])
      with_pending

-- Forwarders that write their names into a journal, the second of which fails.
abbrev journal : String → Option Error → Forwarder (List String)
journal name e = record { name = name; send = λ n w. (e, name ∷ w) }

abbrev forwarders : List (Forwarder (List String))
forwarders = journal "slack" none ∷ journal "smtp" (some "refused") ∷ journal "servicenow" none ∷ []

abbrev note : Notification
note = notification_of memory shrink_web "ann" "https://approve.example.com"

send_all_except-without_example :
    send_all_except forwarders note ("servicenow" ∷ []) []
    ≡ ("smtp: refused" ∷ [], "smtp" ∷ "slack" ∷ [])
send_all_except-without_example = send_all_except-without note forwarders ("servicenow" ∷ []) []
