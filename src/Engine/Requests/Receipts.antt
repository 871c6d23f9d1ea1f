-- ===== src/Engine/Requests/Receipts.antt =====
-- The receipts of `Engine.Run` from the request on (internal/action/engine.go).
use witshield.Base.{String, ◌≡◌, refl, inl, inr, true, false, Option, none, some, ◌⊎◌, [], arith}
use witshield.Engine.Types.{execute, Request, Invocation, Playbook, Library}
use witshield.Engine.Seal.{valid_state}
use witshield.Engine.Lifecycle.{Run, dispatch}
use witshield.Engine.Lifecycle.Outcome.{changes_host, IsFresh, IsClear, dispatch-IsClear}
use witshield.Engine.Lifecycle.Phases.{Course, operations, run_execute-Course}
use witshield.Engine.Requests.{
  Engine, Admitted, accept, reject, playbook_for, admit_state, admit_playbook, admit, new_receipt,
  finish, run,
}

pub Admitted-cases :
    {H : Type 0} (a : Admitted H)
    → ((error : String) × (a ≡ reject error))
      ⊎ ((p : Playbook H) × (i : Invocation) × (a ≡ accept p i))
Admitted-cases (reject error) = inl (error, refl)
Admitted-cases (accept p i) = inr (p, i, refl)

module _ {H : Type 0} (l : Library) (e : Engine H) (request : Request) where
  abbrev pub start : String → H → Invocation → Run H
  start id host invocation = record {
    receipt = new_receipt l id request;
    invocation = invocation;
    host = host;
    reads = 1;
  }

  -- A request that is admitted runs the registered playbook, without a rollback state where the
  -- operation changes the host.
  record IsAdmitted (p : Playbook H) (invocation : Invocation) : Type 0 where
    registered : playbook_for request.type e.playbooks ≡ some p
    stateless : changes_host request.operation ≡ true → invocation.state ≡ ""

  admit_state-stateless :
      (p : Playbook H) {p' : Playbook H} {i : Invocation}
      → admit_state l e.state_key request p ≡ accept p' i
      → (p ≡ p') × (changes_host request.operation ≡ true → i.state ≡ "")
  unfolding admit_state
  admit_state-stateless p h = ground arith

  admit_playbook-IsAdmitted :
      (o : Option (Playbook H)) {p : Playbook H} {i : Invocation}
      → playbook_for request.type e.playbooks ≡ o
      → admit_playbook l e.state_key request o ≡ accept p i
      → IsAdmitted p i
  unfolding admit_playbook
  admit_playbook-IsAdmitted none k h = cc
  admit_playbook-IsAdmitted (some p) k h = ground (arith, admit_state-stateless p)

  admit-IsAdmitted :
      {p : Playbook H} {i : Invocation} → admit l e request ≡ accept p i → IsAdmitted p i
  unfolding admit
  admit-IsAdmitted h =
      ground (arith, admit_playbook-IsAdmitted (playbook_for request.type e.playbooks) refl)

  -- The run of an admitted request starts fresh.
  start-IsFresh : (id : String) (host : H) (i : Invocation) → IsFresh l (start id host i)
  unfolding new_receipt
  start-IsFresh id host i = ground arith

  empty_state_invalid : (state : String) → state ≡ "" → valid_state l state ≡ false
  unfolding valid_state
  empty_state_invalid state h = rw h refl

  -- A receipt that reports success never reports an unknown outcome, and one of a sure failure
  -- carries no rollback state.
  pub run_claims :
      (id : String) (host : H)
      → let receipt = (run l e id request host).1 in
        (receipt.success ≡ true → receipt.indeterminate ≡ false)
        × (receipt.success ≡ false → receipt.indeterminate ≡ false → receipt.state ≡ "")
  unfolding run finish
  run_claims id host = elim (Admitted-cases (admit l e request)) [
    | inl (error, q) ↦ ground arith
    | inr (p, i, q) ↦
        let key = e.state_key in
        let a : IsAdmitted p i = admit-IsAdmitted q in
        let s = start id host i in
        let c : IsClear l (dispatch l key request.operation p s) =
          dispatch-IsClear l key request.operation p s (start-IsFresh id host i)
            (λ c. empty_state_invalid i.state (a.stateless c)) in
        ground arith
  ]

  -- `execute` follows its course: the audit steps are those of a prefix of precheck, preview, apply
  -- and verify, with a rollback after a failed apply or verify, and it succeeds exactly on all four.
  pub run-Course :
      (id : String) (host : H)
      → request.operation ≡ execute
      → let receipt = (run l e id request host).1 in
        (operations receipt.steps ≡ []) × (receipt.success ≡ false)
        ⊎ Course (operations receipt.steps) receipt.success
  unfolding run finish operations new_receipt
  run-Course id host x = elim (Admitted-cases (admit l e request)) [
    | inl (error, q) ↦ ground arith
    | inr (p, i, q) ↦
        let key = e.state_key in
        let a : IsAdmitted p i = admit-IsAdmitted q in
        let s = start id host i in ground (arith, run_execute-Course l key p s)
  ]
