-- ===== src/Helper/Server.antt =====
-- The request handler of cmd/witshield-helper/main.go, between the connection's bytes and the
-- response: `handle`, `handleObservation`, `authenticate`, `tokenMatches`.
pub mod Recorded
pub mod Once
use Prim.Native.String.{◌++◌ as cat}
use witshield.Base.{
  ℕ, zero, suc, ◌+◌, ◌^◌, String, len, Bool, true, false, not, ◌&&◌, ◌||◌, Option, none, some, List,
  [], ◌∷◌, ltb, leb, ◌==◌, str_eq, if◌then◌else◌, length,
}
use witshield.Engine.Types.{
  Operation, precheck, preview, apply, verify, rollback, execute, confirm, other, Request, Result,
  AuditStep, Receipt, Library,
}
use witshield.Engine.Requests.{Engine, action_id_ok, run}
use witshield.Helper.Files.{Directory, Codec, Disk, ReceiptCache, HelperResponse}
use witshield.Helper.Capacity.{Outcome, ok, err}
use witshield.Helper.Receipts.{
  Identity, Loaded, absent, cached, unusable, operation_text, load, begin, save,
}

abbrev pub max_request_bytes : ℕ
max_request_bytes = 2 ^ 20

pub record HelperRequest : Type 0 where
  pub token : String
  pub kind : String
  pub attempt_id : String
  pub action_id : String
  pub type : String
  pub operation : Operation
  pub parameters : String
  pub state : String
  pub rollback_payload : String

-- What arrives on the connection: a line of so many bytes, and the request that it strictly decodes
-- to, if it does.
pub record Incoming : Type 0 where
  pub size : ℕ
  pub decoded : Option HelperRequest
  -- the user of the peer, where the socket tells it
  pub peer_uid : Option ℕ

pub record ProcessSnapshot : Type 0 where
  pub processes : List String
  pub observed : ℕ
  pub truncated : Bool

pub record Server (H : Type 0) : Type 0 where
  pub engine : Engine H
  pub receipts : Option ReceiptCache
  pub token : String
  -- `observeProcesses` may be nil, and it may fail
  pub observe_processes : Option (Option ProcessSnapshot)

-- The receipt directory and the host.
pub record World (H : Type 0) : Type 0 where
  pub entries : Directory
  pub host : H

abbrev pub blank : HelperResponse
blank = record {
  done = false;
  result = none;
  rollback_payload = "";
  audit_receipt = none;
  error = "";
  processes = [];
  process_observed = 0;
  process_truncated = false;
}

abbrev pub failure : String → HelperResponse
failure message = record blank { error = message }

-- `tokenMatches`
token_matches : String → String → Bool
token_matches candidate expected = str_eq candidate expected

-- `authenticate`, with the decimal text of a user's number.
unfoldable pub authenticate : (ℕ → String) → Option ℕ → String → String → Option String
unfolding token_matches
authenticate decimal none candidate token =
    if token_matches candidate token then some "local-token-client" else none
authenticate decimal (some uid) candidate token =
    if uid == 0
    then some "local-uid:0"
    else if token_matches candidate token
    then some (cat "local-uid:" (decimal uid))
    else none

-- `handleObservation`
unfoldable pub handle_observation : {H : Type 0} → Server H → HelperRequest → HelperResponse
handle_observation s r =
    if not (str_eq r.kind "observe_suspicious_processes_v1")
      || not (str_eq r.attempt_id "")
      || not (str_eq r.action_id "")
      || not (str_eq r.type "")
      || not (str_eq (operation_text r.operation) "")
      || ltb 0 (len r.parameters)
      || ltb 0 (len r.state)
      || ltb 0 (len r.rollback_payload)
    then failure "invalid observation request"
    else elim s.observe_processes [
      | none ↦ failure "invalid observation request"
      | some answer ↦ elim answer [
        | none ↦ failure "process observation failed"
        | some snapshot ↦
            if ltb 256 (length snapshot.processes)
              || ltb snapshot.observed (length snapshot.processes)
            then failure "process observation exceeded safe capacity"
            else record blank {
              done = true;
              processes = snapshot.processes;
              process_observed = snapshot.observed;
              process_truncated = snapshot.truncated;
            }
      ]
    ]

-- The operation that a request without one means.
unfoldable pub effective_operation : HelperRequest → Operation
effective_operation r =
    if str_eq (operation_text r.operation) ""
    then (if ltb 0 (len r.rollback_payload) then rollback else execute)
    else r.operation

unfoldable pub effective_state : HelperRequest → String
effective_state r = if ltb 0 (len r.rollback_payload) then r.rollback_payload else r.state

unfoldable pub is_cacheable : Operation → Bool
is_cacheable execute = true
is_cacheable rollback = true
is_cacheable confirm = true
is_cacheable _ = false

unfoldable pub is_stateless : Operation → Bool
is_stateless precheck = true
is_stateless preview = true
is_stateless apply = true
is_stateless execute = true
is_stateless _ = false

-- The last step that has a result.
unfoldable pub last_result : List AuditStep → Option Result
last_result [] = none
last_result (x ∷ xs) = elim (last_result xs) [ none ↦ x.result | some r ↦ some r ]

unfoldable pub response_of : Receipt → HelperResponse
unfolding last_result
response_of receipt = record blank {
  done = receipt.success;
  result = last_result receipt.steps;
  rollback_payload = receipt.state;
  audit_receipt = some receipt;
  error = receipt.error;
}

-- The response where the final receipt cannot be stored.
unfoldable pub not_persisted : Receipt → HelperResponse → HelperResponse
not_persisted receipt response = record response {
  done = false;
  error =
      if receipt.success
      then "action succeeded but durable receipt persistence failed"
      else cat "action did not reach a verified state and durable receipt persistence also failed: "
          receipt.error;
}

unfoldable pub identity_of : HelperRequest → Identity
unfolding effective_operation effective_state
identity_of r = record {
  attempt_id = r.attempt_id;
  action_id = r.action_id;
  type = r.type;
  operation = effective_operation r;
  parameters = r.parameters;
  state = effective_state r;
}

-- What one request meets: the random identifier of the receipt, and the disk at the load, when the
-- execution is started, and when its receipt is saved.
pub record Circumstances : Type 0 where
  pub receipt_id : String
  pub at_load : Disk
  pub at_begin : Disk
  pub at_save : Disk

module _ {H : Type 0} (l : Library) (c : Codec) (s : Server H) where
  -- `s.engine.Run` on the request.
  unfoldable pub run_engine : String → String → Identity → H → H × Receipt
  run_engine id actor i host =
      run l s.engine id
        (record {
          action_id = i.action_id;
          actor = actor;
          type = i.type;
          operation = i.operation;
          parameters = i.parameters;
          state = i.state;
        })
        host

  save_receipt :
      ReceiptCache → Circumstances → Identity → Receipt → World H → World H × HelperResponse
  save_receipt cache o i receipt w =
      let (entries, stored) = save c cache o.at_save i (response_of receipt) w.entries in
      (
        record w { entries = entries },
        elim stored [
          | ok _ ↦ response_of receipt
          | err _ ↦ not_persisted receipt (response_of receipt)
        ],
      )

  -- An action under a receipt: load, begin, run, save.
  pub run_recorded :
      ReceiptCache → Circumstances → String → Identity → World H → World H × HelperResponse
  run_recorded cache o actor i w = elim (load c o.at_load i w.entries) [
    | unusable _ ↦ (w, failure "receipt cache validation failed")
    | cached response ↦ (w, response)
    | absent ↦
        let (entries, started) = begin c cache o.at_begin i w.entries in
        elim started [
          | err _ ↦
              (record w { entries = entries }, failure "failed to persist action execution intent")
          | ok _ ↦
              let (host, receipt) = run_engine o.receipt_id actor i w.host in
              save_receipt cache o i receipt (record { entries = entries; host = host })
        ]
  ]

  run_unrecorded : Circumstances → String → Identity → World H → World H × HelperResponse
  run_unrecorded o actor i w =
      let (host, receipt) = run_engine o.receipt_id actor i w.host in
      (record w { host = host }, response_of receipt)

  -- The action of a request that has passed the checks.
  run_action : Circumstances → String → Identity → World H → World H × HelperResponse
  run_action o actor i w = elim s.receipts [
    | none ↦ run_unrecorded o actor i w
    | some cache ↦
        if is_cacheable i.operation
        then run_recorded cache o actor i w
        else run_unrecorded o actor i w
  ]

  -- The checks of an authenticated request, in their order.
  handle_authenticated : Circumstances → String → HelperRequest → World H → World H × HelperResponse
  unfolding effective_operation effective_state
  handle_authenticated o actor r w =
      if not (str_eq r.kind "")
      then (w, handle_observation s r)
      else if not (action_id_ok r.attempt_id)
      then (w, failure "invalid attempt identity")
      else if ltb 0 (len r.state) && ltb 0 (len r.rollback_payload)
      then (w, failure "state and rollbackPayload are mutually exclusive")
      else if is_stateless (effective_operation r) && ltb 0 (len (effective_state r))
      then (w, failure "rollback state is not accepted for this operation")
      else run_action o actor (identity_of r) w

  -- `handle`, from the line that was read to the response.
  pub handle : (ℕ → String) → Circumstances → Incoming → World H → World H × HelperResponse
  handle decimal o incoming w =
      if ltb max_request_bytes incoming.size
      then (w, failure "request exceeds size limit")
      else elim incoming.decoded [
        | none ↦ (w, failure "invalid request")
        | some r ↦ elim (authenticate decimal incoming.peer_uid r.token s.token) [
          | none ↦ (w, failure "authentication failed")
          | some actor ↦ handle_authenticated o actor (record r { token = "" }) w
        ]
      ]

-- Opens every part, for a run at a concrete input.
unfoldable pub server : Unit {0}
unfolding authenticate handle_observation is_cacheable is_stateless response_of not_persisted
    identity_of run_engine save_receipt run_recorded run_unrecorded run_action handle_authenticated
    handle
server = tt
