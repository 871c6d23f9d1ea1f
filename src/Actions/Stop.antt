-- ===== src/Actions/Stop.antt =====
-- The emergency stop against the execution gate (internal/store/settings_actions_defense.go and
-- internal/store/action_results.go): who wins the race for a queued policy command.
pub mod Grants
pub mod Race
use mathlib.Core.Path.{subst}
use witshield.Base.{
  Option-cases, ℕ, String, Bool, true, false, ◌&&◌, ◌≡◌, ◌≢◌, refl, sym, ap, ◌∙◌, inl, inr, none,
  some, List, [], ◌∷◌, ◌++◌, str_eq, eq_iff, if◌then◌else◌, arith,
}
use witshield.Base.Dict.{lookup}
use witshield.Defense.Correlator.{DefensePolicy}
use witshield.Actions.Tables.{Payload, Tables, CommandRow, GrantRow}
use witshield.Actions.Statement.{
  queued, update_commands, insert_command, insert_action, update_actions, first_where, update_where,
}
use witshield.Actions.Statement.Find.{
  first_where-update, first_where-append, first_where-holds, updated, or_else,
}
use witshield.Actions.Statement.Rules.{
  Keeps-pure, Keeps-require, Keeps-bind, Keeps-constrained, Keeps, Preorder,
}
use witshield.Actions.Policy.{is_execute, is_grant}
use witshield.Actions.Gate.{
  capability_of, is_unstarted, is_granted, bans_allowed, is_command_of, is_authorized, mark_started,
}
use witshield.Actions.Lifecycle.{Quiet, KeptByActions}

-- A command that a policy queued and that has not started.
abbrev pub Queued : CommandRow → Type 0
Queued c = (c.started_at ≡ none) × (is_execute c.type ≡ true) × (c.payload.policy_authorized ≡ true)

pub true_ne_false : true ≢ false
true_ne_false e = cc

module _ (device_id : String) where
  -- Every grant of the device carries the stop.
  abbrev pub AllStopped : List GrantRow → Type 0
  AllStopped grants =
      (capability : String) (g : GrantRow)
      → first_where (is_grant device_id capability) grants ≡ some g
      → g.emergency_stop ≡ true

  abbrev pub IsStopped : List (String × DefensePolicy) → Type 0
  IsStopped policies =
      (p : DefensePolicy) × (lookup device_id policies ≡ some p) × (p.emergency_stop ≡ true)

  pub granted_stopped :
      (type : String) (s : Tables) → AllStopped s.grants → is_granted device_id type s ≡ false
  unfolding is_granted
  granted_stopped type s all = elim (Option-cases (capability_of type)) [
    | inl e ↦ ground arith
    | inr (capability, e) ↦
        elim (Option-cases (first_where (is_grant device_id capability) s.grants)) [
          | inl f ↦ ground arith
          | inr (g, f) ↦ ground (arith, all capability g f)
        ]
  ]

  pub bans_stopped : (s : Tables) → IsStopped s.policies → bans_allowed device_id s ≡ false
  unfolding bans_allowed
  bans_stopped s (p, stored, stop) = ground arith

module _ (device_id command_id : String) where
  abbrev pub Waits : List CommandRow → Type 0
  Waits commands =
      (c : CommandRow) × (first_where (is_command_of command_id device_id) commands ≡ some c)
      × Queued c

  -- The command waits, and the device is stopped.
  abbrev pub Shut : List CommandRow → List (String × DefensePolicy) → List GrantRow → Type 0
  Shut commands policies grants =
      Waits commands × IsStopped device_id policies × AllStopped device_id grants

  abbrev pub Closed : Tables → Tables → Type 0
  Closed s t = Shut s.commands s.policies s.grants → Shut t.commands t.policies t.grants

  Waits-update :
      (p : CommandRow → Bool) (f : CommandRow → CommandRow) (rows : List CommandRow)
      → ((c : CommandRow)
          → p c ≡ true
          → is_command_of command_id device_id (f c) ≡ is_command_of command_id device_id c)
      → ((c : CommandRow)
          → is_command_of command_id device_id c ≡ true
          → p c ≡ true
          → Queued c
          → Queued (f c))
      → (c : CommandRow) → first_where (is_command_of command_id device_id) rows ≡ some c
      → Queued c
      → (d : CommandRow) × (first_where (is_command_of command_id device_id) (update_where p f rows)
          ≡ some d)
        × Queued d
  Waits-update p f rows key queued c found q = (
    if p c then f c else c,
    first_where-update (is_command_of command_id device_id) p f rows key ∙ ap (updated p f) found,
    row (p c) (λ e. queued c (first_where-holds _ rows found) e q),
  )
    where
      row : (b : Bool) → (b ≡ true → Queued (f c)) → Queued (if b then f c else c)
      row true h = h refl
      row false h = q

  is_command_of-same :
      (c d : CommandRow)
      → d.id ≡ c.id
      → d.device_id ≡ c.device_id
      → is_command_of command_id device_id d ≡ is_command_of command_id device_id c
  unfolding is_command_of
  is_command_of-same c d e f = rw (e, f) refl

  Queued-same :
      (c d : CommandRow)
      → d.started_at ≡ c.started_at
      → d.type ≡ c.type
      → d.payload ≡ c.payload
      → Queued c
      → Queued d
  Queued-same c d e f g (q, r, t) =
      (e ∙ q, ap is_execute f ∙ r, ap (λ (x : Payload). x.policy_authorized) g ∙ t)

  Waits-append : (rows : List CommandRow) (c : CommandRow) → Waits rows → Waits (rows ++ c ∷ [])
  Waits-append rows c (d, found, q) = (
    d,
    first_where-append _ rows c
        ∙ ap (λ o. or_else o (if is_command_of command_id device_id c then some c else none)) found,
    q,
  )

  Closed-Quiet : (s t : Tables) → Quiet s t → Closed s t
  Closed-Quiet s t q h =
      subst (λ x. Shut x t.policies t.grants) (sym q.commands)
        (subst (λ x. Shut s.commands x t.grants) (sym q.policies)
          (subst (λ x. Shut s.commands s.policies x) (sym q.grants) h))

  pub Closed-order : Preorder Closed
  Closed-order = record { same = λ s c. c; then_ = λ f g c. g (f c) }

  pub Closed-kept : KeptByActions Closed
  unfolding update_actions insert_action insert_command update_commands
  Closed-kept = record {
    order = Closed-order;
    quiet = Closed-Quiet;
    moves = λ p f h. record { at = λ s c. c };
    adds = λ r fresh. Keeps-constrained Closed-order _ _ _ (λ s h c. c);
    queues = λ cmd.
        Keeps-constrained Closed-order _ _ _
          (λ s h (w, p, g). (Waits-append s.commands (queued cmd) w, p, g));
    ends = λ p f ids started devices types payloads. record {
      at = λ s ((c, found, q), stop, g). (
        Waits-update p f s.commands (λ c e. is_command_of-same c (f c) (ids c) (devices c))
            (λ c _ _ q. Queued-same c (f c) (started c) (types c) (payloads c) q) c found q,
        stop,
        g,
      );
    };
  }

  -- The gate does not let the command through.
  pub Shut-unauthorized :
      (s : Tables) (c : CommandRow)
      → Shut s.commands s.policies s.grants
      → first_where (is_command_of command_id device_id) s.commands ≡ some c
      → is_authorized c s ≡ false
  unfolding is_authorized is_command_of
  Shut-unauthorized s c ((d, found, q), stopped, grants) e =
      let ours : str_eq c.id command_id && str_eq c.device_id device_id ≡ true =
        first_where-holds (λ r. str_eq r.id command_id && str_eq r.device_id device_id) s.commands
          e in
      let device : c.device_id ≡ device_id = ground (arith, eq_iff c.device_id device_id) in
      let same : d ≡ c = ground arith in
      ground (
        arith,
        q,
        bans_stopped device_id s stopped,
        granted_stopped device_id c.payload.type s grants,
      )

  other_row :
      (d k : String) (now : ℕ) (c r : CommandRow)
      → str_eq k command_id && str_eq d device_id ≡ false
      → is_command_of k d c ≡ true
      → is_command_of command_id device_id r ≡ true
      → is_unstarted c.id c.device_id r ≡ false
  unfolding is_unstarted is_command_of
  other_row d k now c r other found ours = ground (
    arith,
    eq_iff k command_id,
    eq_iff d device_id,
    eq_iff c.id k,
    eq_iff c.device_id d,
    eq_iff r.id command_id,
    eq_iff r.device_id device_id,
    eq_iff r.id c.id,
    eq_iff r.device_id c.device_id,
  )

  pub start_other :
      (d k : String) (now : ℕ) (c : CommandRow)
      → str_eq k command_id && str_eq d device_id ≡ false
      → is_command_of k d c ≡ true
      → Keeps Closed (mark_started c now)
  unfolding mark_started update_commands
  start_other d k now c other found =
      Keeps-bind Closed-order
        (record {
          at = λ s ((e, mine, q), stop, g). (
            Waits-update (is_unstarted c.id c.device_id) (λ r. record r { started_at = some now })
                s.commands
                (λ r _. is_command_of-same r (record r { started_at = some now }) refl refl)
                (λ r ours un _.
                  absurd (true_ne_false (sym un ∙ other_row d k now c r other found ours)))
                e mine q,
            stop,
            g,
          );
        })
        (λ n.
          Keeps-bind Closed-order (Keeps-require Closed-order _ _)
            (λ _. Keeps-pure Closed-order true))
