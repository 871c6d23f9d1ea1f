-- ===== src/Actions/Expiry/Rounds.antt =====
-- A round of the expiry of action commands never fails (internal/store/reports_commands.go): the audit
-- entry it adds is of an action that it has just updated.
use witshield.Base.{
  ℕ, String, Bool, true, false, not, ◌≡◌, ◌≢◌, refl, inl, inr, List, [], ◌∷◌, len, ◌==◌, str_eq,
  if◌then◌else◌, Bool-cases, arith,
}
use witshield.Actions.Tables.{
  ActionStatus, BanRow, CommandRow, ActionRow, Tables, failed, indeterminate,
}
use witshield.Actions.Statement.{
  Tx, Fault, done, fault, pure, ◌>>=◌, count_where, update_where, first_where, find_action, is_some,
  update_actions, update_commands, update_bans, insert_audit, constrained, change, ◌>>◌,
}
use witshield.Actions.Policy.{dropped, is_open_command}
use witshield.Actions.Gate.{is_action_of}
use witshield.Actions.Expiry.{
  ended, is_abandoned, is_lost, fail_action, lose_action, expire_undelivered, expire_unanswered,
  lost_command, undelivered_message, unanswered_message,
}

-- An action that an update affects is found after it.
found_after :
    (id : String) (q : ActionRow → Bool) (f : ActionRow → ActionRow) (rows : List ActionRow)
    → ((r : ActionRow) → q r ≡ true → str_eq r.id id ≡ true)
    → ((r : ActionRow) → (f r).id ≡ r.id)
    → count_where q rows ≢ 0
    → is_some (find_action id (update_where q f rows)) ≡ true
unfolding find_action first_where update_where count_where
found_after id q f [] by_id same n = absurd (n refl)
found_after id q f (r ∷ rows) by_id same n = elim (Bool-cases (q r)) [
  | inl e ↦ ground (arith, by_id r, same r)
  | inr e ↦ ground (arith, found_after id q f rows by_id same)
]

-- The transaction ends without an error and leaves the commands alone.
abbrev pub Harmless : Tx (Unit {0}) → Tables → Type 0
Harmless m s = (t : Tables) × (m s ≡ done tt t) × (t.commands ≡ s.commands)

-- What follows the update of an action, where the action is there.
followed-Harmless :
    (b : Bool) (p : BanRow → Bool) (f : BanRow → BanRow) (id event details : String) (now : ℕ)
    (s : Tables)
    → (b ≡ false → is_some (find_action id s.actions) ≡ true)
    → Harmless
        (if b
          then pure tt
          else (do update_bans p f; insert_audit id "controller" event details now))
        s
unfolding ◌>>=◌ update_bans change insert_audit constrained pure
followed-Harmless true p f id event details now s h = (s, refl, refl)
followed-Harmless false p f id event details now s h =
    guard (is_some (find_action id s.actions)) _ _ (h refl)
  where
    guard :
        (b : Bool) (u : Tables) (e : Fault)
        → b ≡ true
        → (t : Tables) × ((if b then done tt u else fault e) ≡ done tt t)
          × (t.commands ≡ u.commands)
    guard true u e h = (_, refl, refl)
    guard false u e h = cc

is_action_of-id :
    (c : CommandRow) (r : ActionRow)
    → is_action_of c.payload.action_id c.device_id r ≡ true
    → str_eq r.id c.payload.action_id ≡ true
unfolding is_action_of
is_action_of-id c r h = ground arith

ended-id :
    (to : ActionStatus) (message : String) (now : ℕ) (r : ActionRow)
    → (ended to message now r).id ≡ r.id
unfolding ended
ended-id to message now r = refl

one : (n : ℕ) → not (n == 1) ≡ false → n ≢ 0
one n h = λ e. ground arith

fail_action-Harmless : (now : ℕ) (c : CommandRow) (s : Tables) → Harmless (fail_action now c) s
unfolding fail_action ◌>>=◌ update_actions is_abandoned
fail_action-Harmless now c s = followed-Harmless _ _ _ _ _ _ now _ (λ h.
    found_after c.payload.action_id (is_abandoned c) _ s.actions
      (λ r e. is_action_of-id c r (ground arith)) (ended-id failed undelivered_message now)
      (one _ h))

lose_action-Harmless : (now : ℕ) (c : CommandRow) (s : Tables) → Harmless (lose_action now c) s
unfolding lose_action ◌>>=◌ update_actions is_lost
lose_action-Harmless now c s = followed-Harmless _ _ _ _ _ _ now _ (λ h.
    found_after c.payload.action_id (is_lost c) _ s.actions
      (λ r e. is_action_of-id c r (ground arith)) (ended-id indeterminate unanswered_message now)
      (one _ h))

-- One round ends, and has only ended the open rows of the command's id.
abbrev pub Round : (CommandRow → Tx (Unit {0})) → (CommandRow → CommandRow) → Type 0
Round f g =
    (c : CommandRow) (s : Tables)
    → (t : Tables) × (f c s ≡ done tt t)
      × (t.commands ≡ update_where (is_open_command c.id) g s.commands)

Round-if :
    (b : Bool) (m : Tx (Unit {0})) (s : Tables)
    → Harmless m s
    → Harmless (if b then pure tt else m) s
unfolding pure
Round-if true m s h = (s, refl, refl)
Round-if false m s h = h

pub expire_undelivered-Round :
    (now : ℕ) → Round (expire_undelivered now) (dropped undelivered_message now)
unfolding expire_undelivered ◌>>=◌ update_commands
expire_undelivered-Round now c s =
    Round-if (len c.payload.action_id == 0) (fail_action now c) _ (fail_action-Harmless now c _)

pub expire_unanswered-Round : (now : ℕ) → Round (expire_unanswered now) (lost_command now)
unfolding expire_unanswered ◌>>=◌ update_commands
expire_unanswered-Round now c s =
    Round-if (len c.payload.action_id == 0) (lose_action now c) _ (lose_action-Harmless now c _)
