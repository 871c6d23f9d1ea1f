-- ===== src/Actions/Expiry/Sweep.antt =====
-- The expiry of action commands ends, and leaves no stale command behind
-- (`expireStaleActionCommands` of internal/store/reports_commands.go).
use mathlib.Core.Path.{subst}
use witshield.Base.{
  Option-cases, ℕ, ◌≤◌, String, Bool, true, ◌≡◌, refl, sym, ap, ◌∙◌, inl, inr, List, [], ◌∷◌, All,
  Bool-cases, arith,
}
use witshield.Actions.Tables.{CommandRow, Tables}
use witshield.Actions.Statement.{Tx, continue, done, read, ◌>>=◌, count_where, is_some}
use witshield.Actions.Gate.{contains}
use witshield.Actions.Expiry.{
  is_undelivered, is_unanswered, start_time, on_device, select_where, order_by, limit_to, for_each,
  expire_undelivered, expire_unanswered, undelivered_message, expire_stale_action_commands,
}
use witshield.Actions.Expiry.Select.{
  All-implied, length-select_where, length-order_by, limit_to-all, ids, contains-order_by,
  contains-select_where,
}
use witshield.Actions.Expiry.Aged.{Pairs-implied, Aged, Aged-trans, Pairs, Pairs-trans}
use witshield.Actions.Expiry.Rounds.{Round, expire_undelivered-Round, expire_unanswered-Round}
use witshield.Actions.Expiry.Ended.{
  Ended, for_each-Ended, is_open-back, dropped-Aged, lost_command-Aged,
}

pub is_undelivered-back :
    (device_id : String) (now : ℕ) (c d : CommandRow)
    → Aged c d
    → is_undelivered device_id now d ≡ true
    → is_undelivered device_id now c ≡ true
unfolding is_undelivered on_device
is_undelivered-back device_id now c d a h =
    ground (arith, is_open-back c d a, a.started_at, a.type, a.created_at, a.device_id)

is_unanswered-back :
    (device_id : String) (now : ℕ) (c d : CommandRow)
    → Aged c d
    → is_unanswered device_id now d ≡ true
    → is_unanswered device_id now c ≡ true
unfolding is_unanswered on_device
is_unanswered-back device_id now c d a h =
    ground (arith, is_open-back c d a, a.started_at, a.type, a.device_id)

module _ (p : CommandRow → Bool)
    (back : (c d : CommandRow) → Aged c d → p d ≡ true → p c ≡ true) where
  pub count-Aged :
      (xs ys : List CommandRow) → Pairs Aged xs ys → count_where p ys ≤ count_where p xs
  unfolding count_where
  count-Aged [] [] h = omega arith
  count-Aged [] (d ∷ ys) h = absurd h
  count-Aged (c ∷ xs) [] h = absurd h
  count-Aged (c ∷ xs) (d ∷ ys) (a, h) = ground (arith, back c d a, count-Aged xs ys h)

  none_left :
      ((d : CommandRow) → p d ≡ true → is_some d.completed_at ≡ true → ⊥)
      → (names : List String) (xs ys : List CommandRow)
      → All (λ c. p c ≡ true → contains c.id names ≡ true) xs
      → Pairs (Ended names) xs ys
      → count_where p ys ≡ 0
  unfolding count_where
  none_left is_open names [] [] a h = refl
  none_left is_open names [] (d ∷ ys) a h = absurd h
  none_left is_open names (c ∷ xs) [] a h = absurd h
  none_left is_open names (c ∷ xs) (d ∷ ys) (m, a) ((age, e), h) = elim (Bool-cases (p d)) [
    | inl f ↦ absurd (is_open d f (e (m (back c d age f))))
    | inr f ↦ ground (arith, none_left is_open names xs ys a h)
  ]

  -- One of the two loops.
  loop_sweeps :
      (key : CommandRow → ℕ) (f : CommandRow → Tx (Unit {0})) (g : CommandRow → CommandRow)
      → Round f g
      → ((c : CommandRow) → Aged c (g c) × (is_some (g c).completed_at ≡ true))
      → ((d : CommandRow) → p d ≡ true → is_some d.completed_at ≡ true → ⊥)
      → (s : Tables) → count_where p s.commands ≤ 500
      → (t : Tables) × (for_each f (limit_to 500 (order_by key (select_where p s.commands))) s
          ≡ done tt t)
        × Pairs Aged s.commands t.commands
        × (count_where p t.commands ≡ 0)
  loop_sweeps key f g round closes is_open s few =
      let selected = order_by key (select_where p s.commands) in
      let all : limit_to 500 selected ≡ selected = limit_to-all 500 selected (
        subst (λ n. n ≤ 500)
          (sym (length-order_by key (select_where p s.commands) ∙ length-select_where p s.commands))
          few) in
      let (t, run, pairs) = for_each-Ended f g selected s round closes in
      let listed : All (λ c. p c ≡ true → contains c.id (ids selected) ≡ true) s.commands =
        All-implied _ _ s.commands
          (λ c h e. contains-order_by c.id key (select_where p s.commands) ∙ h e)
          (contains-select_where p s.commands) in
      (
        t,
        ap (λ cs. for_each f cs s) all ∙ run,
        Pairs-implied _ _ s.commands t.commands (λ c d h. h.0) pairs,
        none_left is_open (ids selected) s.commands t.commands listed pairs,
      )

is_undelivered-open :
    (device_id : String) (now : ℕ) (d : CommandRow)
    → is_undelivered device_id now d ≡ true
    → is_some d.completed_at ≡ true
    → ⊥
unfolding is_undelivered
is_undelivered-open device_id now d h e = elim (Option-cases d.completed_at) [
  | inl f ↦ ground arith
  | inr (t, f) ↦ ground arith
]

is_unanswered-open :
    (device_id : String) (now : ℕ) (d : CommandRow)
    → is_unanswered device_id now d ≡ true
    → is_some d.completed_at ≡ true
    → ⊥
unfolding is_unanswered
is_unanswered-open device_id now d h e = elim (Option-cases d.completed_at) [
  | inl f ↦ ground arith
  | inr (t, f) ↦ ground arith
]

abbrev second_loop : String → ℕ → Unit {0} → Tx (Unit {0})
second_loop device_id now _ v =
    for_each (expire_unanswered now)
      (limit_to 500 (order_by start_time (select_where (is_unanswered device_id now) v.commands))) v

-- The sweep ends in any case.
pub sweep_ends :
    (device_id : String) (now : ℕ) (s : Tables)
    → (t : Tables) × (expire_stale_action_commands device_id now s ≡ done tt t)
      × Pairs Aged s.commands t.commands
unfolding expire_stale_action_commands ◌>>=◌ read
sweep_ends device_id now s =
    let (u, first, aged) =
      for_each-Ended (expire_undelivered now) _
        (limit_to 500
          (order_by (λ c. c.created_at) (select_where (is_undelivered device_id now) s.commands)))
        s (expire_undelivered-Round now) (dropped-Aged undelivered_message now) in
    let (t, second, later) =
      for_each-Ended (expire_unanswered now) _
        (limit_to 500 (order_by start_time (select_where (is_unanswered device_id now) u.commands)))
        u (expire_unanswered-Round now) (lost_command-Aged now) in
    (
      t,
      ap (λ o. continue o (second_loop device_id now)) first ∙ second,
      Pairs-trans _ _ Aged s.commands u.commands t.commands (λ c d e a b. Aged-trans a.0 b.0) aged
          later,
    )

-- Where at most 500 commands are stale in each way, the sweep does not fail: it leaves no open action
-- command that was not started within ten minutes, and none that was started more than two hours ago;
-- it changes no command's id, device, type or times, and reopens none.
pub sweep_complete :
    (device_id : String) (now : ℕ) (s : Tables)
    → count_where (is_undelivered device_id now) s.commands ≤ 500
    → count_where (is_unanswered device_id now) s.commands ≤ 500
    → (t : Tables) × (expire_stale_action_commands device_id now s ≡ done tt t)
      × Pairs Aged s.commands t.commands
      × (count_where (is_undelivered device_id now) t.commands ≡ 0)
      × (count_where (is_unanswered device_id now) t.commands ≡ 0)
unfolding expire_stale_action_commands ◌>>=◌ read
sweep_complete device_id now s few few' =
    let (u, first, aged, none_undelivered) =
      loop_sweeps (is_undelivered device_id now) (is_undelivered-back device_id now)
        (λ c. c.created_at) (expire_undelivered now) _ (expire_undelivered-Round now)
        (dropped-Aged undelivered_message now) (is_undelivered-open device_id now) s few in
    let fewer =
      count-Aged (is_unanswered device_id now) (is_unanswered-back device_id now) s.commands
        u.commands aged in
    let (t, second, later, none_unanswered) =
      loop_sweeps (is_unanswered device_id now) (is_unanswered-back device_id now) start_time
        (expire_unanswered now) _ (expire_unanswered-Round now) (lost_command-Aged now)
        (is_unanswered-open device_id now) u (omega arith) in
    let still =
      count-Aged (is_undelivered device_id now) (is_undelivered-back device_id now) u.commands
        t.commands later in
    (
      t,
      ap (λ o. continue o (second_loop device_id now)) first ∙ second,
      Pairs-trans Aged Aged Aged s.commands u.commands t.commands (λ c d e. Aged-trans) aged later,
      omega arith,
      none_unanswered,
    )
