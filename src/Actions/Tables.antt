-- ===== src/Actions/Tables.antt =====
-- The rows of the tables that actions use (the schema of internal/store/store.go), and the types of
-- internal/domain/models.go that they hold. Stored JSON and times are held decoded.
use witshield.Base.{
  ℕ, String, Bool, true, false, ◌&&◌, ◌||◌, ltb, ◌≡◌, refl, sym, ap, ◌∙◌, Option, List, ◌==◌,
  if◌then◌else◌, arith,
}
use witshield.Defense.Correlator.{DefensePolicy}

-- `domain.ActionStatus`
pub data ActionStatus : Type 0 where
  draft approved executing awaiting_confirmation confirming succeeded failed rolling_back
        rolled_back cancelled indeterminate :
      ActionStatus

abbrev pub status_code : ActionStatus → ℕ
status_code draft = 0
status_code approved = 1
status_code executing = 2
status_code awaiting_confirmation = 3
status_code confirming = 4
status_code succeeded = 5
status_code failed = 6
status_code rolling_back = 7
status_code rolled_back = 8
status_code cancelled = 9
status_code indeterminate = 10

-- Go's `==` on statuses.
abbrev pub is_status : ActionStatus → ActionStatus → Bool
is_status a b = status_code a == status_code b

-- The statuses that `ensureUnfinishedActionCapacityTx` does not count.
unfoldable pub is_finished : ActionStatus → Bool
is_finished succeeded = true
is_finished failed = true
is_finished rolled_back = true
is_finished cancelled = true
is_finished indeterminate = true
is_finished _ = false

-- A row of `actions`.
pub record ActionRow : Type 0 where
  pub id : String
  pub device_id : String
  pub finding_id : String
  pub type : String
  pub parameters : String
  pub preview : String
  pub status : ActionStatus
  pub approval_nonce_hash : String
  pub approved_by : String
  pub approved_at : Option ℕ
  pub executed_at : Option ℕ
  pub completed_at : Option ℕ
  pub rollback_payload : Option String
  pub confirm_by : Option ℕ
  pub error : String
  pub created_at : ℕ
  pub updated_at : ℕ

-- `domain.CommandType`
pub data CommandType : Type 0 where
  scan execute_action rollback_action confirm_action : CommandType

-- The payload of a command. The lifetime of a ban is in its parameters; none where these do not
-- decode to one of at least a second.
pub record Payload : Type 0 where
  pub action_id : String
  pub policy_authorized : Bool
  pub type : String
  pub parameters : String
  pub ttl_seconds : Option ℕ

-- `domain.DeviceCommand`, as it is enqueued.
pub record DeviceCommand : Type 0 where
  pub id : String
  pub device_id : String
  pub type : CommandType
  pub payload : Payload
  pub created_at : ℕ

-- A row of `device_commands`.
pub record CommandRow : Type 0 where
  pub id : String
  pub device_id : String
  pub type : CommandType
  pub payload : Payload
  pub created_at : ℕ
  pub claimed_at : Option ℕ
  pub started_at : Option ℕ
  pub completed_at : Option ℕ
  pub result : String
  pub error : String

pub record AuditRow : Type 0 where
  pub action_id : String
  pub actor : String
  pub event : String
  pub details : String
  pub created_at : ℕ

pub data BanStatus : Type 0 where
  pending active expired simulated_only rolled_back failed cancelled indeterminate : BanStatus

unfoldable pub is_pending_ban : BanStatus → Bool
is_pending_ban BanStatus.pending = true
is_pending_ban _ = false

-- A row of `temporary_bans`.
pub record BanRow : Type 0 where
  pub id : String
  pub device_id : String
  pub action_id : String
  pub source_ip : String
  pub reason : String
  pub expires_at : ℕ
  pub created_at : ℕ
  pub simulated : Bool
  pub status : BanStatus

unfoldable pub is_in_force : BanStatus → Bool
is_in_force active = true
is_in_force BanStatus.indeterminate = true
is_in_force _ = false

-- A ban that is queued, or in force at the time.
unfoldable pub is_live : ℕ → BanRow → Bool
unfolding is_pending_ban is_in_force
is_live now b = is_pending_ban b.status || (is_in_force b.status && ltb now b.expires_at)

-- `domain.AutonomyMode`
pub data Mode : Type 0 where
  observe assist auto_low_risk enhanced : Mode

unfoldable pub is_enhanced : Mode → Bool
is_enhanced enhanced = true
is_enhanced _ = false

-- A row of `policy_grants`.
pub record GrantRow : Type 0 where
  pub device_id : String
  pub capability : String
  pub enabled : Bool
  pub mode : Mode
  pub allowed_action_types : List String
  pub max_actions_per_hour : ℕ
  pub emergency_stop : Bool
  pub updated_at : ℕ

-- `domain.ResponseStep`, as far as an action is made of it.
pub record ResponseStep : Type 0 where
  pub id : String
  pub action_type : String
  pub parameters : String
  pub action_id : String

-- The columns of `response_plans` and `incidents` that an approval changes, and `response_plan_actions`.
pub record PlanRow : Type 0 where
  pub id : String
  pub incident_id : String
  pub status : String
  pub steps : List ResponseStep
  pub updated_at : ℕ

pub record IncidentRow : Type 0 where
  pub id : String
  pub device_id : String
  pub status : String
  pub updated_at : ℕ

pub record PlanAction : Type 0 where
  pub plan_id : String
  pub step_id : String
  pub action_id : String

pub record TimelineRow : Type 0 where
  pub incident_id : String
  pub actor : String
  pub type : String
  pub summary : String
  pub details : List (String × String)
  pub created_at : ℕ

-- The tables; a device is its id with `observer_only`.
pub record Tables : Type 0 where
  pub devices : List (String × Bool)
  pub actions : List ActionRow
  pub commands : List CommandRow
  pub audit : List AuditRow
  pub bans : List BanRow
  pub policies : List (String × DefensePolicy)
  pub grants : List GrantRow
  pub plan_actions : List PlanAction
  pub plans : List PlanRow
  pub incidents : List IncidentRow
  pub timeline : List TimelineRow

of_code : ℕ → ActionStatus
of_code n =
    if n == 0
    then draft
    else if n == 1
    then approved
    else if n == 2
    then executing
    else if n == 3
    then awaiting_confirmation
    else if n == 4
    then confirming
    else if n == 5
    then succeeded
    else if n == 6
    then failed
    else if n == 7
    then rolling_back
    else if n == 8
    then rolled_back
    else if n == 9
    then cancelled
    else indeterminate

of_code-status_code : (a : ActionStatus) → of_code (status_code a) ≡ a
unfolding of_code
of_code-status_code draft = refl
of_code-status_code approved = refl
of_code-status_code executing = refl
of_code-status_code awaiting_confirmation = refl
of_code-status_code confirming = refl
of_code-status_code succeeded = refl
of_code-status_code failed = refl
of_code-status_code rolling_back = refl
of_code-status_code rolled_back = refl
of_code-status_code cancelled = refl
of_code-status_code indeterminate = refl

pub eq_of_is_status : (a b : ActionStatus) → is_status a b ≡ true → a ≡ b
eq_of_is_status a b h =
    let same : status_code a ≡ status_code b = ground arith in
    sym (of_code-status_code a) ∙ ap of_code same ∙ of_code-status_code b
