-- ===== src/Engine/Requests.antt =====
-- The engine itself: `NewEngineWithStateKey`, the guards of `Run`, and `Run` from its guards to the
-- receipt (internal/action/engine.go).
pub mod Receipts
pub mod Success
use witshield.Base.{
  ℕ, String, len, Bool, true, false, not, ◌&&◌, ◌||◌, Option, none, some, List, [], ◌∷◌, ltb, leb,
  ◌==◌, str_eq, if◌then◌else◌, length,
}
use witshield.Engine.Types.{
  Operation, verify, rollback, confirm, Request, Invocation, Playbook, Receipt, Library,
}
use witshield.Engine.Seal.{
  ◌⊹◌, codes, opened, refused, digest_parameters, receipt_digest, open_state,
}
use witshield.Engine.Lifecycle.{Run, dispatch}

is_word : ℕ → Bool
is_word c = (leb b'a' c && leb c b'z') || (leb b'A' c && leb c b'Z') || (leb b'0' c && leb c b'9')

abbrev is_id_byte : ℕ → Bool
is_id_byte c = is_word c || c == b'.' || c == b'_' || c == b':' || c == b'-'

all_id_bytes : List ℕ → Bool
unfolding is_word
all_id_bytes [] = true
all_id_bytes (c ∷ s) = is_id_byte c && all_id_bytes s

id_matches : List ℕ → Bool
unfolding is_word all_id_bytes
id_matches [] = false
id_matches (c ∷ s) = is_word c && all_id_bytes s && leb (length s) 127

-- actionIDPattern, ^[A-Za-z0-9][A-Za-z0-9._:-]{0,127}$
unfoldable pub action_id_ok : String → Bool
unfolding id_matches
action_id_ok id = id_matches (codes id)

is_state_operation : Operation → Bool
is_state_operation verify = true
is_state_operation rollback = true
is_state_operation confirm = true
is_state_operation _ = false

-- The map of playbooks, in the order of registration, and the key of the rollback states.
pub record Engine (H : Type 0) : Type 0 where
  pub playbooks : List (String × Playbook H)
  pub state_key : String

pub data Built (H : Type 0) : Type 0 where
  built : Engine H → Built H
  failed : String → Built H

pub data Admitted (H : Type 0) : Type 0 where
  reject : String → Admitted H
  accept : Playbook H → Invocation → Admitted H

module _ {H : Type 0} where
  unfoldable pub playbook_for : String → List (String × Playbook H) → Option (Playbook H)
  playbook_for type [] = none
  playbook_for type ((name, p) ∷ rest) = if str_eq name type then some p else playbook_for type rest

  -- The loop of `NewEngineWithStateKey`; `none` in the list is a nil playbook.
  unfoldable pub register : Engine H → List (Option (Playbook H)) → Built H
  unfolding playbook_for
  register e [] = built e
  register e (none ∷ rest) = failed "nil or unnamed playbook"
  register e (some p ∷ rest) =
      let next = register (record e { playbooks = (p.type, p) ∷ e.playbooks }) rest in
      if str_eq p.type ""
      then failed "nil or unnamed playbook"
      else elim (playbook_for p.type e.playbooks) [
        | some _ ↦ failed ("duplicate playbook \"" ⊹ p.type ⊹ "\"")
        | none ↦ next
      ]

  unfoldable pub new_engine_with_state_key : Library → String → List (Option (Playbook H)) → Built H
  unfolding register
  new_engine_with_state_key l state_key playbooks =
      if ltb (len state_key) 32
      then failed "rollback-state key must contain at least 256 bits"
      else register (record { playbooks = []; state_key = l.sha256_hex state_key }) playbooks

abbrev pub invocation_of : Request → String → Invocation
invocation_of request state = record {
  action_id = request.action_id;
  actor = request.actor;
  parameters = request.parameters;
  state = state;
}

pub new_receipt : Library → String → Request → Receipt
new_receipt l id request = record {
  id = id;
  action_id = request.action_id;
  actor = request.actor;
  type = request.type;
  operation = request.operation;
  parameters_digest = digest_parameters l request.parameters;
  started_at = l.now 0;
  finished_at = 0;
  success = false;
  indeterminate = false;
  steps = [];
  state = "";
  rollback_state_digest = "";
  confirm_by = none;
  error = "";
  digest = "";
}

module _ {H : Type 0} (l : Library) where
  open l use {json_valid, now}

  -- The rollback state of a request: opened for the operations that need one, else refused.
  admit_state : String → Request → Playbook H → Admitted H
  unfolding is_state_operation
  admit_state key request p =
      if is_state_operation request.operation
      then elim (open_state l key request) [
        | refused e ↦ reject e
        | opened state ↦ accept p (invocation_of request state)
      ]
      else if ltb 0 (len request.state)
      then reject "invalid action request: rollback state is not accepted for this operation"
      else accept p (invocation_of request "")

  admit_playbook : String → Request → Option (Playbook H) → Admitted H
  unfolding admit_state
  admit_playbook key request none = reject "unsupported action type"
  admit_playbook key request (some p) = elim (p.validate request.parameters) [
    | some e ↦ reject ("invalid action request: " ⊹ e)
    | none ↦ admit_state key request p
  ]

  -- The guards of `Run`, in their order.
  unfoldable pub admit : Engine H → Request → Admitted H
  unfolding action_id_ok admit_playbook playbook_for
  admit e request =
      if not (action_id_ok request.action_id)
        || str_eq request.actor ""
        || ltb 128 (len request.actor)
      then reject "invalid action request"
      else if len request.parameters == 0 || not (json_valid request.parameters)
      then reject "invalid action request: parameters must be valid JSON"
      else admit_playbook e.state_key request (playbook_for request.type e.playbooks)

  -- The deferred function of `Run`.
  finish : Run H → H × Receipt
  finish s =
      let receipt = record s.receipt { finished_at = now s.reads } in
      (s.host, record receipt { digest = receipt_digest l receipt })

  -- `Run`; `id` is the random identifier that `receiptID` draws.
  unfoldable pub run : Engine H → String → Request → H → H × Receipt
  unfolding admit new_receipt finish
  run e id request host =
      let receipt = new_receipt l id request in
      elim (admit e request) [
        | reject error ↦ finish (record {
          receipt = record receipt { error = error };
          invocation = invocation_of request "";
          host = host;
          reads = 1;
        })
        | accept p invocation ↦ finish (
            dispatch l e.state_key request.operation p
              (record { receipt = receipt; invocation = invocation; host = host; reads = 1 }))
      ]
