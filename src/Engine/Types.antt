-- ===== src/Engine/Types.antt =====
-- internal/action/types.go: requests, playbooks and receipts. `json.RawMessage` and `string` are
-- texts, `error` is an optional message, a time is a number of nanoseconds.
use witshield.Base.{ℕ, ◌^◌, ◌*◌, String, Bool, Option, List}

-- `Operation` is a string in the source: `other` is any value that is none of the constants.
pub data Operation : Type 0 where
  precheck preview apply verify rollback execute confirm : Operation
  other : String → Operation

pub record Request : Type 0 where
  pub action_id : String
  pub actor : String
  pub type : String
  pub operation : Operation
  pub parameters : String
  pub state : String

pub record Invocation : Type 0 where
  pub action_id : String
  pub actor : String
  pub parameters : String
  pub state : String

pub record Result : Type 0 where
  pub summary : String
  pub details : String

pub record ApplyResult : Type 0 where
  pub result : Result
  pub state : String
  pub confirm_by : Option ℕ

-- A method acts on the host, and returns its two Go results.
abbrev pub Method : Type 0 → Type 0 → Type 0
Method H R = Invocation → H → H × R × Option String

-- The interface `Playbook`; `confirm` is there when the value is a `Confirmer` too.
pub record Playbook (H : Type 0) : Type 0 where
  pub type : String
  pub validate : String → Option String
  pub precheck : Method H Result
  pub preview : Method H Result
  pub apply : Method H ApplyResult
  pub verify : Method H Result
  pub rollback : Method H Result
  pub confirm : Option (Method H Result)

pub record AuditStep : Type 0 where
  pub operation : Operation
  pub started_at : ℕ
  pub finished_at : ℕ
  pub success : Bool
  pub result : Option Result
  pub error : String

pub record Receipt : Type 0 where
  pub id : String
  pub action_id : String
  pub actor : String
  pub type : String
  pub operation : Operation
  pub parameters_digest : String
  pub started_at : ℕ
  pub finished_at : ℕ
  pub success : Bool
  pub indeterminate : Bool
  pub steps : List AuditStep
  pub state : String
  pub rollback_state_digest : String
  pub confirm_by : Option ℕ
  pub error : String
  pub digest : String

pub record SealedRollbackState : Type 0 where
  pub version : ℕ
  pub action_id : String
  pub type : String
  pub parameters_digest : String
  pub payload : String
  pub mac : String

abbrev pub max_rollback_state_bytes : ℕ
max_rollback_state_bytes = 512 * 2 ^ 10

-- What the engine takes from encoding/json, crypto and time.
pub record Library : Type 0 where
  -- json.Valid
  pub json_valid : String → Bool
  -- decode with UseNumber, then json.Marshal; `none` when either fails
  pub canonical : String → Option String
  -- the hexadecimal SHA-256
  pub sha256_hex : String → String
  -- the hexadecimal HMAC-SHA-256 under a key
  pub hmac_hex : String → List ℕ → String
  -- json.Marshal of a sealed state, and `decodeStrict` back
  pub marshal_sealed : SealedRollbackState → String
  pub decode_sealed : String → Option SealedRollbackState
  -- json.Marshal of a receipt (its state is not serialised)
  pub marshal_receipt : Receipt → String
  -- the reading of the clock, by the number of readings made before
  pub now : ℕ → ℕ
