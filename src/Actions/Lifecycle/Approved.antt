-- ===== src/Actions/Lifecycle/Approved.antt =====
-- No action runs without an approval (internal/store/settings_actions_defense.go).
use mathlib.Core.Path.{subst}
use witshield.Base.{
  Bool-cases, String, Bool, true, false, ◌≡◌, ◌≢◌, refl, sym, ap, ◌∙◌, ◌⊎◌, inl, inr, some, List,
  [], ◌∷◌, ◌++◌, All, str_eq, if◌then◌else◌, arith,
}
use witshield.Actions.Tables.{Tables, ActionRow, ActionStatus, draft, cancelled}
use witshield.Actions.Statement.{find_action, first_where, update_where, is_some}
use witshield.Actions.Approval.{found}
use witshield.Actions.Calls.{Call, perform_all}
use witshield.Actions.Lifecycle.{Step, approve, move, Move, Fresh, as_draft, by_policy}
use witshield.Actions.Lifecycle.Sequences.{OfActions, perform_all-R}

-- A draft, an action that was cancelled, or one whose approval is on record.
abbrev Approved : ActionRow → Type 0
Approved r = (r.status ≡ draft) ⊎ (r.status ≡ cancelled) ⊎ (is_some r.approved_at ≡ true)

-- No move leads to a draft; of the moves only the lapse starts at a draft, and none at a cancelled action.
pub Move-from :
    {a b : ActionStatus}
    → Move a b
    → (b ≢ draft) × ((b ≡ cancelled) ⊎ ((a ≢ draft) × (a ≢ cancelled)))
Move-from Move.lapse = (λ e. cc, inl refl)
Move-from Move.withdraw = (λ e. cc, inl refl)
Move-from Move.start = (λ e. cc, inr (λ e. cc, λ e. cc))
Move-from Move.succeed = (λ e. cc, inr (λ e. cc, λ e. cc))
Move-from Move.fail_run = (λ e. cc, inr (λ e. cc, λ e. cc))
Move-from Move.succeed_early = (λ e. cc, inr (λ e. cc, λ e. cc))
Move-from Move.fail_early = (λ e. cc, inr (λ e. cc, λ e. cc))
Move-from Move.await_confirmation = (λ e. cc, inr (λ e. cc, λ e. cc))
Move-from Move.succeed_confirmed = (λ e. cc, inr (λ e. cc, λ e. cc))
Move-from Move.resume_process = (λ e. cc, inr (λ e. cc, λ e. cc))
Move-from Move.give_up_run = (λ e. cc, inl refl)
Move-from Move.revoke_success = (λ e. cc, inr (λ e. cc, λ e. cc))
Move-from Move.revoke_waiting = (λ e. cc, inr (λ e. cc, λ e. cc))
Move-from Move.revoke_failure = (λ e. cc, inr (λ e. cc, λ e. cc))
Move-from Move.revoke_unknown = (λ e. cc, inr (λ e. cc, λ e. cc))
Move-from Move.roll_back = (λ e. cc, inr (λ e. cc, λ e. cc))
Move-from Move.fail_back = (λ e. cc, inr (λ e. cc, λ e. cc))
Move-from Move.drop_rollback = (λ e. cc, inl refl)
Move-from Move.confirm = (λ e. cc, inr (λ e. cc, λ e. cc))
Move-from Move.drop_confirmation = (λ e. cc, inl refl)
Move-from Move.expire = (λ e. cc, inl refl)
Move-from Move.fail_waiting = (λ e. cc, inr (λ e. cc, λ e. cc))
Move-from Move.fail_confirmation = (λ e. cc, inr (λ e. cc, λ e. cc))
Move-from Move.lose_run = (λ e. cc, inr (λ e. cc, λ e. cc))
Move-from Move.lose_rollback = (λ e. cc, inr (λ e. cc, λ e. cc))
Move-from Move.lose_confirmation = (λ e. cc, inr (λ e. cc, λ e. cc))

Step-Approved : {r t : ActionRow} → Step r t → Approved r → Approved t
Step-Approved (approve _ _ _ recorded) h = inr (inr recorded)
Step-Approved (move _ same _ from to m) h = elim (Move-from m).1 [
  | inl e ↦ inr (inl (to ∙ e))
  | inr (not_draft, not_cancelled) ↦ elim h [
    | inl e ↦ absurd (not_draft (sym from ∙ e))
    | inr (inl e) ↦ absurd (not_cancelled (sym from ∙ e))
    | inr (inr e) ↦ inr (inr (ap is_some same ∙ e))
  ]
]

All-updated :
    (p : ActionRow → Bool) (f : ActionRow → ActionRow) (rows : List ActionRow)
    → ((r : ActionRow) → p r ≡ true → Step r (f r))
    → All Approved rows
    → All Approved (update_where p f rows)
unfolding update_where
All-updated p f [] h a = a
All-updated p f (r ∷ rest) h (approved_r, a) = (row (p r) (h r), All-updated p f rest h a)
  where
    row : (b : Bool) → (b ≡ true → Step r (f r)) → Approved (if b then f r else r)
    row true st = Step-Approved (st refl) approved_r
    row false st = approved_r

Fresh-Approved : {r : ActionRow} → Fresh r → Approved r
Fresh-Approved (as_draft e) = inl e
Fresh-Approved (by_policy _ e) = inr (inr e)

All-append :
    (rows : List ActionRow) (r : ActionRow)
    → All Approved rows
    → Approved r
    → All Approved (rows ++ r ∷ [])
All-append [] r a h = (h, tt)
All-append (x ∷ rest) r (ax, a) h = (ax, All-append rest r a h)

Approved-kept : OfActions (λ s t. All Approved s.actions → All Approved t.actions)
Approved-kept = record {
  order = record { same = λ s a. a; then_ = λ f g a. g (f a) };
  same_actions = λ s t e a. subst (All Approved) (sym e) a;
  moves = λ p f h s a. All-updated p f s.actions h a;
  adds = λ r fresh s new a. All-append s.actions r a (Fresh-Approved fresh);
}

All-find :
    (id : String) (rows : List ActionRow) (r : ActionRow)
    → All Approved rows
    → find_action id rows ≡ some r
    → Approved r
unfolding find_action first_where
All-find id [] r a h = cc
All-find id (x ∷ rest) r (ax, a) h = elim (Bool-cases (str_eq x.id id)) [
  | inl e ↦ let same : x ≡ r = ground arith in subst Approved same ax
  | inr e ↦ All-find id rest r a (ground arith)
]

-- In a store that started without actions, whatever calls are made, an action that is neither a draft
-- nor cancelled has the time of its approval on record.
pub calls-Approved :
    (calls : List Call) (s : Tables) (id : String) (r : ActionRow)
    → s.actions ≡ []
    → find_action id (perform_all calls s).actions ≡ some r
    → r.status ≢ draft
    → r.status ≢ cancelled
    → is_some r.approved_at ≡ true
calls-Approved calls s id r empty found not_draft not_cancelled =
    let all = perform_all-R Approved-kept calls s (subst (All Approved) (sym empty) tt) in
    elim (All-find id (perform_all calls s).actions r all found) [
      | inl e ↦ absurd (not_draft e)
      | inr (inl e) ↦ absurd (not_cancelled e)
      | inr (inr e) ↦ e
    ]
