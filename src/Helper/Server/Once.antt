-- ===== src/Helper/Server/Once.antt =====
-- That an attempt reaches the host at most once (cmd/witshield-helper/main.go, receipt_cache.go).
use mathlib.Core.Path.{subst}
use witshield.Base.{
  ℕ, String, len, ◌≡◌, sym, ap, ◌∙◌, ◌⊎◌, inl, inr, true, ◌&&◌, none, some, List, [], ◌∷◌, ltb,
  str_eq, Bool-cases, Option-cases, arith,
}
use witshield.Base.Dict.{Distinct}
use witshield.Engine.Types.{Library}
use witshield.Engine.Requests.{action_id_ok}
use witshield.Helper.Files.{File, Codec, ReceiptCache}
use witshield.Helper.Receipts.{Identity, path}
use witshield.Helper.Receipts.Replay.{IsStarted, Present}
use witshield.Helper.Server.{
  HelperRequest, Incoming, Server, World, Circumstances, authenticate, effective_operation,
  effective_state, is_cacheable, is_stateless, max_request_bytes, identity_of, run_recorded,
  run_unrecorded, run_action, handle_authenticated, handle,
}
use witshield.Helper.Server.Recorded.{
  IsStarted-Present, recorded-Present, recorded-Distinct, recorded-IsStarted, recorded_once,
}

module _ {H : Type 0} (l : Library) (c : Codec) (s : Server H) where
  module _ (o : Circumstances) (w : World H) where
    -- A request is turned away, or its action is run.
    abbrev Handling : HelperRequest → World H → Type 0
    Handling r w' =
        (w' ≡ w) ⊎ ((actor : String) × (w' ≡ (run_action l c s o actor (identity_of r) w).0))

    authenticated-Handling :
        (actor : String) (r : HelperRequest) → Handling r (handle_authenticated l c s o actor r w).0
    unfolding handle_authenticated
    authenticated-Handling actor r = elim (Bool-cases (str_eq r.kind "")) [
      | inr e ↦ inl (ground arith)
      | inl e1 ↦ elim (Bool-cases (action_id_ok r.attempt_id)) [
        | inr e ↦ inl (ground arith)
        | inl e2 ↦ elim (Bool-cases (ltb 0 (len r.state) && ltb 0 (len r.rollback_payload))) [
          | inl e ↦ inl (ground arith)
          | inr e3 ↦
              elim (Bool-cases
                (is_stateless (effective_operation r) && ltb 0 (len (effective_state r)))) [
                  | inl e ↦ inl (ground arith)
                  | inr e4 ↦ inr (actor, ground arith)
                ]
        ]
      ]
    ]

    handle-Handling :
        (decimal : ℕ → String) (incoming : Incoming) {r : HelperRequest}
        → incoming.decoded ≡ some r
        → Handling r (handle l c s decimal o incoming w).0
    unfolding handle identity_of
    handle-Handling decimal incoming {r} h =
        elim (Bool-cases (ltb max_request_bytes incoming.size)) [
          | inl e ↦ inl (ground arith)
          | inr fits ↦
              elim (Option-cases (authenticate decimal incoming.peer_uid r.token s.token)) [
                | inl e ↦ inl (ground arith)
                | inr (actor, known) ↦
                    let rest = authenticated-Handling actor (record r { token = "" }) in
                    subst (Handling r) (ground arith) rest
              ]
        ]

    handle-undecoded :
        (decimal : ℕ → String) (incoming : Incoming)
        → incoming.decoded ≡ none
        → (handle l c s decimal o incoming w).0 ≡ w
    unfolding handle
    handle-undecoded decimal incoming h = ground arith

    action-Distinct :
        (actor : String) (i : Identity)
        → Distinct w.entries
        → Distinct (run_action l c s o actor i w).0.entries
    unfolding run_action run_unrecorded
    action-Distinct actor i d = elim (Option-cases s.receipts) [
      | inl e ↦ ground arith
      | inr (cache, e) ↦ ground (arith, recorded-Distinct l c s cache o actor i w d)
    ]

    action-IsStarted :
        (actor : String) (i : Identity)
        → Distinct w.entries
        → (p : String) (f : File) → IsStarted c p f w.entries
        → IsStarted c p f (run_action l c s o actor i w).0.entries
    unfolding run_action run_unrecorded
    action-IsStarted actor i d p f h = elim (Option-cases s.receipts) [
      | inl e ↦ h_of (ground arith)
      | inr (cache, e) ↦ elim (Bool-cases (is_cacheable i.operation)) [
        | inl e' ↦
            subst (λ x. IsStarted c p f x) (ground arith)
              (recorded-IsStarted l c s cache o actor i w d p f h)
        | inr e' ↦ h_of (ground arith)
      ]
    ]
      where
        h_of :
            w.entries ≡ (run_action l c s o actor i w).0.entries
            → IsStarted c p f (run_action l c s o actor i w).0.entries
        h_of e = subst (λ x. IsStarted c p f x) e h

    action_recorded :
        {cache : ReceiptCache}
        → s.receipts ≡ some cache
        → (actor : String) (i : Identity) → is_cacheable i.operation ≡ true
        → run_action l c s o actor i w ≡ run_recorded l c s cache o actor i w
    unfolding run_action
    action_recorded h actor i e = ground arith

    handle-Distinct :
        (decimal : ℕ → String) (incoming : Incoming)
        → Distinct w.entries
        → Distinct (handle l c s decimal o incoming w).0.entries
    handle-Distinct decimal incoming d = elim (Option-cases incoming.decoded) [
      | inl e ↦ subst (λ x. Distinct x.entries) (sym (handle-undecoded decimal incoming e)) d
      | inr (r, e) ↦ elim (handle-Handling decimal incoming e) [
        | inl same ↦ subst (λ x. Distinct x.entries) (sym same) d
        | inr (actor, ran) ↦
            subst (λ x. Distinct x.entries) (sym ran) (action-Distinct actor (identity_of r) d)
      ]
    ]

    handle-IsStarted :
        (decimal : ℕ → String) (incoming : Incoming)
        → Distinct w.entries
        → (p : String) (f : File) → IsStarted c p f w.entries
        → IsStarted c p f (handle l c s decimal o incoming w).0.entries
    handle-IsStarted decimal incoming d p f h = elim (Option-cases incoming.decoded) [
      | inl e ↦ subst (λ x. IsStarted c p f x.entries) (sym (handle-undecoded decimal incoming e)) h
      | inr (r, e) ↦ elim (handle-Handling decimal incoming e) [
        | inl same ↦ subst (λ x. IsStarted c p f x.entries) (sym same) h
        | inr (actor, ran) ↦
            subst (λ x. IsStarted c p f x.entries) (sym ran)
              (action-IsStarted actor (identity_of r) d p f h)
      ]
    ]

    -- A request for an action that leaves a receipt, with the attempt that it names.
    pub handle_recorded :
        {cache : ReceiptCache} (decimal : ℕ → String) (incoming : Incoming) {r : HelperRequest}
        → s.receipts ≡ some cache
        → incoming.decoded ≡ some r
        → is_cacheable (effective_operation r) ≡ true
        → ((handle l c s decimal o incoming w).0 ≡ w)
          ⊎ ((actor : String) × ((handle l c s decimal o incoming w).0
                ≡ (run_recorded l c s cache o actor (identity_of r) w).0))
    unfolding identity_of
    handle_recorded decimal incoming {r} has h cacheable =
        elim (handle-Handling decimal incoming h) [
          | inl e ↦ inl e
          | inr (actor, e) ↦
              inr (actor, e ∙ ap (λ x. x.0) (action_recorded has actor (identity_of r) cacheable))
        ]

    handle-Present :
        {cache : ReceiptCache} (decimal : ℕ → String) (incoming : Incoming) {r : HelperRequest}
        → s.receipts ≡ some cache
        → incoming.decoded ≡ some r
        → is_cacheable (effective_operation r) ≡ true
        → Present (path c r.attempt_id) w.entries
        → (handle l c s decimal o incoming w).0 ≡ w
    unfolding identity_of
    handle-Present {cache} decimal incoming {r} has h cacheable present =
        elim (handle_recorded decimal incoming has h cacheable) [
          | inl e ↦ e
          | inr (actor, e) ↦ e ∙ recorded-Present l c s cache o actor (identity_of r) w present
        ]

  -- The requests that a helper handles, one after the other.
  pub handle_all : (ℕ → String) → List (Circumstances × Incoming) → World H → World H
  handle_all decimal [] w = w
  handle_all decimal ((o, incoming) ∷ rest) w =
      handle_all decimal rest (handle l c s decimal o incoming w).0

  handle_all-IsStarted :
      (decimal : ℕ → String) (traffic : List (Circumstances × Incoming)) (w : World H)
      → Distinct w.entries
      → (p : String) (f : File) → IsStarted c p f w.entries
      → IsStarted c p f (handle_all decimal traffic w).entries
  unfolding handle_all
  handle_all-IsStarted decimal [] w d p f h = h
  handle_all-IsStarted decimal ((o, incoming) ∷ rest) w d p f h =
      handle_all-IsStarted decimal rest (handle l c s decimal o incoming w).0
        (handle-Distinct o w decimal incoming d) p f (handle-IsStarted o w decimal incoming d p f h)

-- Of two successive requests that name one attempt, where each would execute, roll back or confirm
-- and the helper keeps receipts, the first leaves the host as it was or the second changes neither
-- the host nor the receipts, however the disk answers.
pub at_most_once :
    {H : Type 0} (l : Library) (c : Codec) (s : Server H) (cache : ReceiptCache)
    (decimal : ℕ → String) (o o' : Circumstances) (first second : Incoming) (r r' : HelperRequest)
    (w : World H)
    → s.receipts ≡ some cache
    → first.decoded ≡ some r
    → second.decoded ≡ some r'
    → r.attempt_id ≡ r'.attempt_id
    → is_cacheable (effective_operation r) ≡ true
    → is_cacheable (effective_operation r') ≡ true
    → Distinct w.entries
    → ((handle l c s decimal o first w).0.host ≡ w.host)
      ⊎ ((handle l c s decimal o' second (handle l c s decimal o first w).0).0
          ≡ (handle l c s decimal o first w).0)
unfolding identity_of
at_most_once l c s cache decimal o o' first second r r' w has h h' same cacheable cacheable' d =
    elim (handle_recorded l c s o w decimal first has h cacheable) [
      | inl e ↦ inl (ap (λ x. x.host) e)
      | inr (actor, e) ↦ elim (recorded_once l c s cache o actor (identity_of r) w d) [
        | inl kept ↦ inl (ap (λ x. x.host) e ∙ kept)
        | inr present ↦
            let there : Present (path c r'.attempt_id) (handle l c s decimal o first w).0.entries =
              subst (λ x. Present (path c x) (handle l c s decimal o first w).0.entries) same
                (subst (λ x. Present (path c r.attempt_id) x.entries) (sym e) present) in
            inr (
              handle-Present l c s o' (handle l c s decimal o first w).0 decimal second has h'
                cacheable' there)
      ]
    ]

-- Where the receipt directory holds the receipt of an execution that started and has no result, as
-- a crash leaves it, and the helper keeps receipts, then whatever requests it handles, the file of
-- this receipt is still stored as it was, and a later request that names the same attempt, to execute,
-- roll back or confirm, changes neither the host nor the receipts.
pub interrupted_stays_away :
    {H : Type 0} (l : Library) (c : Codec) (s : Server H) (cache : ReceiptCache)
    (decimal : ℕ → String) (traffic : List (Circumstances × Incoming)) (o : Circumstances)
    (incoming : Incoming) (r : HelperRequest) (f : File) (w : World H)
    → s.receipts ≡ some cache
    → incoming.decoded ≡ some r
    → is_cacheable (effective_operation r) ≡ true
    → Distinct w.entries
    → IsStarted c (path c r.attempt_id) f w.entries
    → IsStarted c (path c r.attempt_id) f (handle_all l c s decimal traffic w).entries
      × ((handle l c s decimal o incoming (handle_all l c s decimal traffic w)).0
          ≡ handle_all l c s decimal traffic w)
interrupted_stays_away {H = H} l c s cache decimal traffic o incoming r f w has h cacheable d
      started =
    let later : World H = handle_all l c s decimal traffic w in
    let kept : IsStarted c (path c r.attempt_id) f later.entries =
      handle_all-IsStarted l c s decimal traffic w d (path c r.attempt_id) f started in
    (
      kept,
      handle-Present l c s o later decimal incoming has h cacheable
          (IsStarted-Present c (path c r.attempt_id) f later.entries kept),
    )
