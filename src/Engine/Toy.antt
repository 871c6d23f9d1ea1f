-- ===== src/Engine/Toy.antt =====
-- A playbook over a list of numbers, which pushes a number, reports an error, and pops the number
-- when it is rolled back; and an engine that has this playbook.
use witshield.Base.{ℕ, String, Option, none, some, ◌||◌, List, [], ◌∷◌, str_eq}
use witshield.Engine.Types.{Result, Playbook, Library, SealedRollbackState}
use witshield.Engine.Requests.{Engine}

abbrev pub quiet : Result
quiet = record { summary = "ok"; details = "" }

unfoldable pub pop : List ℕ → List ℕ × Result × Option String
pop [] = ([], quiet, some "nothing to restore")
pop (x ∷ rest) = (rest, quiet, none)

abbrev pub pusher : Option String → Playbook (List ℕ)
pusher failure = record {
  type = "push";
  validate = λ _. none;
  precheck = λ i h. (h, quiet, none);
  preview = λ i h. (h, quiet, none);
  apply = λ i h. (1 ∷ h, record { result = quiet; state = "{}"; confirm_by = none }, failure);
  verify = λ i h. (h, quiet, none);
  rollback = λ i h. pop h;
  confirm = none;
}

abbrev pub toy_state : SealedRollbackState
toy_state = record {
  version = 1;
  action_id = "a1";
  type = "push";
  parameters_digest = "sha256:{}";
  payload = "{}";
  mac = "key";
}

abbrev pub toy : Library
toy = record {
  json_valid = λ s. str_eq s "{}" || str_eq s "sealed";
  canonical = λ s. some s;
  sha256_hex = λ s. s;
  hmac_hex = λ key _. key;
  marshal_sealed = λ _. "sealed";
  decode_sealed = λ _. some toy_state;
  marshal_receipt = λ _. "receipt";
  now = λ n. n;
}

abbrev pub engine : Option String → Engine (List ℕ)
engine failure = record { playbooks = ("push", pusher failure) ∷ []; state_key = "key" }
