-- ===== src/Engine/Requests/Success.antt =====
-- The receipt of a request to execute that succeeds, from the request on (`Engine.Run` of
-- internal/action/engine.go).
use witshield.Base.{String, ◌≡◌, refl, inl, inr, true, arith}
use witshield.Engine.Types.{execute, Request, Receipt, Library}
use witshield.Engine.Seal.{digest_parameters}
use witshield.Engine.Lifecycle.{Run}
use witshield.Engine.Lifecycle.Success.{Succeeds, run_execute-Succeeds}
use witshield.Engine.Requests.{Engine, admit, new_receipt, finish, run}
use witshield.Engine.Requests.Receipts.{Admitted-cases, start}

-- The receipt is of the request.
pub record OfRequest (l : Library) (request : Request) (r : Receipt) : Type 0 where
  pub action_id : r.action_id ≡ request.action_id
  pub type : r.type ≡ request.type
  pub operation : r.operation ≡ request.operation
  pub parameters_digest : r.parameters_digest ≡ digest_parameters l request.parameters

module _ {H : Type 0} (l : Library) (e : Engine H) (request : Request) where
  finish-Succeeds : (s : Run H) → Succeeds l s.receipt → Succeeds l (finish l s).1
  unfolding finish
  finish-Succeeds s h = ground (arith, h)

  finish-OfRequest :
      (s : Run H) → OfRequest l request s.receipt → OfRequest l request (finish l s).1
  unfolding finish
  finish-OfRequest s h = ground (arith, h)

  -- A successful execution has all its steps in its receipt, which is of the request.
  pub run-Succeeds :
      (id : String) (host : H)
      → request.operation ≡ execute
      → (run l e id request host).1.success ≡ true
      → Succeeds l (run l e id request host).1 × OfRequest l request (run l e id request host).1
  unfolding run finish new_receipt
  run-Succeeds id host x h = elim (Admitted-cases (admit l e request)) [
    | inl (error, q) ↦ absurd (ground arith)
    | inr (p, i, q) ↦
        let s = start l e request id host i in
        let (all, same) = run_execute-Succeeds l e.state_key p s refl refl (ground arith) in
        ground (arith, all, same)
  ]
