-- ===== src/Engine/Local/Undo.antt =====
-- That a local rollback takes the state of an earlier change (internal/action/engine.go).
use mathlib.Core.Path.{subst}
use witshield.Base.{String, len, ◌≤◌, ◌≡◌, refl, sym, true, arith}
use witshield.Engine.Types.{rollback, Library, max_rollback_state_bytes}
use witshield.Engine.Seal.{opened, seal_state, open_state}
use witshield.Engine.Seal.Integrity.{JsonRoundTrip, signed_state, open-seal}
use witshield.Engine.Requests.{action_id_ok}
use witshield.Engine.Local.{local_request, rollback_action_id}

module _ (l : Library) (key fresh action_id type parameters payload : String) where
  -- The state that an earlier request of this action was given.
  abbrev pub sealed : String
  sealed = seal_state l key action_id type parameters payload

  named_action :
      JsonRoundTrip l
        (signed_state l key (local_request action_id type rollback parameters sealed) payload)
      → action_id_ok action_id ≡ true
      → rollback_action_id l fresh sealed ≡ action_id
  unfolding rollback_action_id seal_state
  named_action j h = let d = j.decode_marshal in ground (arith, d)

  -- The request that `Rollback` makes of a sealed state opens this state, whatever identifier is drawn:
  -- it names the action that the state was sealed for. The action has a valid identifier, and the
  -- payload is valid JSON of at most 512 KiB that marshalling leaves as it is.
  pub rollback_local-opens :
      (j : JsonRoundTrip l
        (signed_state l key (local_request action_id type rollback parameters sealed) payload))
      → action_id_ok action_id ≡ true
      → l.json_valid payload ≡ true
      → len payload ≤ max_rollback_state_bytes
      → j.compacted ≡ payload
      → open_state l key
          (local_request (rollback_action_id l fresh sealed) type rollback parameters sealed)
        ≡ opened payload
  rollback_local-opens j named valid small compacted =
      subst
        (λ a. open_state l key (local_request a type rollback parameters sealed) ≡ opened payload)
        (sym (named_action j named))
        (open-seal l key (local_request action_id type rollback parameters sealed) payload j valid
          small compacted refl)
