-- ===== src/Types.antt =====
-- The custom resources of api/v1alpha1: recommendations (rightsizingrecommendation_types.go),
-- and in the child `Policy` the policy (rightsizingpolicy_types.go, defaults.go).
--
-- An instant is a number of nanoseconds. A Go string is a `String`, a nil pointer is `none`, an
-- int32 or int64 is an integer with its wrap-around written out where the code computes. Percentages
-- are float64 in the source; their type is the parameter `F` of the records that hold them.
pub mod Policy
use ovro.Prelude.{ℕ, String, Bool, true, false, Option, none}
use ovro.Prelude.Int.{ℤ}

abbrev pub Time : Type 0
Time = ℕ

abbrev pub minute : ℕ
minute = 60000000000

abbrev pub hour : ℕ
hour = 3600000000000

-- Label and annotation maps. A nil map has no key.
abbrev pub Labels : Type 0
Labels = String → Option String

abbrev pub annotation_exclude : String
annotation_exclude = "rightsizing.redhatconsulting.io/exclude"

abbrev pub label_owner : String
label_owner = "rightsizing.redhatconsulting.io/owner"

-- The quantities that the code meets: `resource.MustParse(fmt.Sprintf("%dGi", n))`, and those that
-- came from a text. What they amount to is `quantity_value` of `Platform`.
pub data Quantity : Type 0 where
  gi : ℤ → Quantity
  quantity : String → Quantity

pub data Direction : Type 0 where
  downsize upsize : Direction

-- `unset` is the empty string, the state of an object whose status was never written.
pub data RecommendationState : Type 0 where
  unset pending awaiting_approval approved applied_pending_restart applied : RecommendationState
  reverted failed : RecommendationState

pub record CpuSpec : Type 0 where
  pub cores : ℤ
  pub sockets : ℤ
  pub threads : ℤ

pub record ResourceSpec : Type 0 where
  pub cpu : CpuSpec
  pub memory : Quantity

pub record ObjectRef : Type 0 where
  pub name : String
  pub namespace : String

pub record MetricsSnapshot (F : Type 0) : Type 0 where
  pub lookback_days : ℤ
  pub cpu_p95_percent : F
  pub memory_p95_percent : F
  pub cpu_max_percent : F
  pub memory_max_percent : F

pub record SavingsSpec : Type 0 where
  pub cpu : ℤ
  pub memory : Quantity

pub record RecommendationSpec (F : Type 0) : Type 0 where
  pub virtual_machine_ref : ObjectRef
  pub direction : Direction
  pub current : ResourceSpec
  pub recommended : ResourceSpec
  pub savings : SavingsSpec
  pub metrics : MetricsSnapshot F
  pub hotplug_capable : Bool
  pub reason : String

pub record RecommendationStatus : Type 0 where
  pub state : RecommendationState
  pub last_calculated : Option Time
  pub applied_at : Option Time
  pub scheduled_restart_at : Option Time
  pub revert_before : Option Time
  pub revert_config : Option ResourceSpec
  pub message : String
  pub owner : String
  pub approval_token : String
  pub notified_at : Option Time
  pub approved_by : String
  pub approved_at : Option Time
  pub rejected_by : String
  pub rejected_at : Option Time
  pub rejection_reason : String
  pub service_now_incident : String
  pub reminder_sent_at : Option Time

pub record NamespacedName : Type 0 where
  pub namespace : String
  pub name : String

-- The object: of its metadata the code uses the name and the namespace.
pub record Recommendation (F : Type 0) : Type 0 where
  pub meta : NamespacedName
  pub spec : RecommendationSpec F
  pub status : RecommendationStatus

-- The zero value of the status.
abbrev pub empty_status : RecommendationStatus
empty_status = record {
  state = unset;
  last_calculated = none;
  applied_at = none;
  scheduled_restart_at = none;
  revert_before = none;
  revert_config = none;
  message = "";
  owner = "";
  approval_token = "";
  notified_at = none;
  approved_by = "";
  approved_at = none;
  rejected_by = "";
  rejected_at = none;
  rejection_reason = "";
  service_now_incident = "";
  reminder_sent_at = none;
}

-- `string(direction)`.
abbrev pub direction_text : Direction → String
direction_text downsize = "downsize"
direction_text upsize = "upsize"

-- `string(state)`.
abbrev pub state_text : RecommendationState → String
state_text unset = ""
state_text pending = "pending"
state_text awaiting_approval = "awaiting-approval"
state_text approved = "approved"
state_text applied_pending_restart = "applied-pending-restart"
state_text applied = "applied"
state_text reverted = "reverted"
state_text failed = "failed"

-- `state == StatePending`, and so for the other states that the code tests.
abbrev pub is_pending : RecommendationState → Bool
is_pending pending = true
is_pending _ = false

abbrev pub is_awaiting_approval : RecommendationState → Bool
is_awaiting_approval awaiting_approval = true
is_awaiting_approval _ = false

abbrev pub is_applied_pending_restart : RecommendationState → Bool
is_applied_pending_restart applied_pending_restart = true
is_applied_pending_restart _ = false

abbrev pub is_applied : RecommendationState → Bool
is_applied applied = true
is_applied _ = false
