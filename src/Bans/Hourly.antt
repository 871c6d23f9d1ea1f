-- ===== src/Bans/Hourly.antt =====
-- The limit of the bans of an hour over sequences of login failures.
use witshield.Bans.Verdicts.{judge-Justified}
use witshield.Events.Counts.{count-append}
use mathlib.Core.Path.{subst}
use witshield.Bans.Verdict.{ban, simulate, idle, judge, Verdict}
use witshield.Bans.Targets.{Netip}
use witshield.Defense.Correlator.{hour, DefensePolicy, Net}
use witshield.Bans.Process.{
  temporary_ban, simulated_ban, policy_action, ban_command, process_failure, ProcessOutcome,
  carry_out, Encoding,
}
use witshield.Base.{
  inl, inr, Bool-cases, eq_iff, true, false, ◌-◌, Bool, ◌≤◌, List, ℕ, String, ◌≡◌, refl, ◌∙◌, ap,
  [], ◌∷◌, ◌++◌, arith,
}
use witshield.Actions.Tables.{Tables, BanRow, DeviceCommand}
use witshield.Actions.Statement.{
  fault, pure, Outcome, read, ◌>>=◌, settle, transact, Tx, count_where, done, update_actions,
  insert_action, insert_audit, insert_command, insert_ban, constrained,
}
use witshield.Actions.Statement.Rules.{
  Relation, Preorder, Keeps, bind-inv, Keeps-done, Keeps-bind, Keeps-pure, Keeps-change,
  Keeps-require, Keeps-read, Keeps-constrained,
}
use witshield.Actions.Approval.{
  Action, expire_draft_actions_tx, ensure_unfinished_action_capacity_tx,
}
use witshield.Actions.Policy.{
  is_recent_ban_of, TemporaryBan, pending_ban, insert_policy_action_and_command,
  insert_policy_action_and_enqueue,
}

abbrev SameBans : Relation
SameBans s t = t.bans ≡ s.bans

same_bans : Preorder SameBans
same_bans = record { same = λ s. refl; then_ = λ p q. q ∙ p }

expire_drafts-SameBans : (d : String) (now : ℕ) → Keeps SameBans (expire_draft_actions_tx d now)
unfolding expire_draft_actions_tx update_actions
expire_drafts-SameBans d now =
    Keeps-bind same_bans (Keeps-change same_bans _ (λ s. refl))
      (λ _. Keeps-bind same_bans (record { at = λ s. refl }) (λ _. Keeps-pure same_bans tt))

ensure-SameBans : (d : String) → Keeps SameBans (ensure_unfinished_action_capacity_tx d)
unfolding ensure_unfinished_action_capacity_tx
ensure-SameBans d = Keeps-read same_bans _ (λ s. (Keeps-require same_bans _ _).at s)

command-SameBans :
    (x : Action) (cmd : DeviceCommand) (actor : String)
    → Keeps SameBans (insert_policy_action_and_command x cmd actor)
unfolding insert_policy_action_and_command insert_action insert_audit insert_command
command-SameBans x cmd actor = Keeps-bind same_bans (expire_drafts-SameBans _ _) (λ _.
    Keeps-bind same_bans (ensure-SameBans _) (λ _.
      Keeps-bind same_bans (Keeps-constrained same_bans _ _ _ (λ s _. refl)) (λ _.
        Keeps-bind same_bans (Keeps-constrained same_bans _ _ _ (λ s _. refl))
          (λ _. Keeps-constrained same_bans _ _ _ (λ s _. refl)))))

insert_ban-bans :
    (r : BanRow) (s t : Tables) (u : Unit {0})
    → insert_ban r s ≡ done u t
    → t.bans ≡ s.bans ++ r ∷ []
unfolding insert_ban constrained
insert_ban-bans r s t u h = ground (arith, h)

pub enqueue-bans :
    (x : Action) (cmd : DeviceCommand) (b : TemporaryBan) (actor : String) (s t : Tables)
    (u : Unit {0})
    → insert_policy_action_and_enqueue x cmd b actor s ≡ done u t
    → t.bans ≡ s.bans ++ pending_ban b x.id ∷ []
unfolding insert_policy_action_and_enqueue
enqueue-bans x cmd b actor s t u h =
    let (_, v, first, second) =
      bind-inv (insert_policy_action_and_command x cmd actor) (λ _. insert_ban (pending_ban b x.id))
        s h in
    insert_ban-bans (pending_ban b x.id) v t u second
    ∙ ap (λ l. l ++ pending_ban b x.id ∷ []) (Keeps-done (command-SameBans x cmd actor) first)

-- One login failure, as the calls of the store meet it.
pub record Failure : Type 0 where
  pub encoding : Encoding
  pub policy : DefensePolicy
  pub device_id : String
  pub source_ip : String
  pub observer_only : Bool
  pub count : ℕ
  pub at : ℕ

-- Later failures, whose policies allow at most so many bans of an hour.
pub data Later (limit : ℕ) : ℕ → List Failure → ℕ → Type 0 where
  ended : {now : ℕ} → Later limit now [] now
  followed :
      {now end : ℕ} {f : Failure} {failures : List Failure}
      → now ≤ f.at
      → f.policy.max_bans_per_hour ≤ limit
      → Later limit f.at failures end
      → Later limit now (f ∷ failures) end

-- The bans of the device that are not simulated, of the last hour.
abbrev pub bans_of_hour : String → ℕ → Tables → ℕ
bans_of_hour d now s = count_where (is_recent_ban_of d (now - hour)) s.bans

fewer_later :
    (d : String) (rows : List BanRow) (c c' : ℕ)
    → c ≤ c'
    → count_where (is_recent_ban_of d c') rows ≤ count_where (is_recent_ban_of d c) rows
unfolding count_where is_recent_ban_of
fewer_later d [] c c' h = omega arith
fewer_later d (r ∷ rows) c c' h = ground (arith, fewer_later d rows c c' h)

module _ (n : Net) (a : Netip) where
  module _ (f : Failure) where
    abbrev pub one : Tx ProcessOutcome
    one =
        process_failure n a f.encoding f.policy f.device_id f.source_ip f.observer_only f.count f.at

    abbrev verdict : List BanRow → Verdict
    verdict = judge n a f.policy f.device_id f.source_ip f.observer_only f.count f.at

    abbrev out : Verdict → Tx ProcessOutcome
    out = carry_out n a f.encoding f.policy f.device_id f.source_ip f.observer_only f.count f.at

    carry_out-limit :
        (d : String) (limit : ℕ) (s t : Tables) (v : Verdict) (o : ProcessOutcome)
        → verdict s.bans ≡ v
        → out v s ≡ done o t
        → f.policy.max_bans_per_hour ≤ limit
        → bans_of_hour d f.at s ≤ limit
        → bans_of_hour d f.at t ≤ limit
    unfolding carry_out
    carry_out-limit d limit s t (idle e) o j h m k =
        let same : s ≡ t = unfold pure in cc in subst (λ u. bans_of_hour d f.at u ≤ limit) same k
    carry_out-limit d limit s t (simulate e x) o j h m k =
        let r =
          simulated_ban n a f.encoding f.policy f.device_id f.source_ip f.observer_only f.count f.at
            e x in
        let (u, v, first, last) = bind-inv (insert_ban r) (λ _. pure _) s h in
        let same : v ≡ t = unfold pure in cc in
        let rows =
          ap (count_where (is_recent_ban_of d (f.at - hour)))
            (subst (λ w. w.bans ≡ s.bans ++ r ∷ []) same (insert_ban-bans r s v u first)) in
        let apart : is_recent_ban_of d (f.at - hour) r ≡ false =
          unfold is_recent_ban_of in unfold simulated_ban in ground arith in
        ground (arith, rows, apart, k, count-append (is_recent_ban_of d (f.at - hour)) s.bans r)
    carry_out-limit d limit s t (ban e x) o j h m k =
        let b =
          temporary_ban n a f.encoding f.policy f.device_id f.source_ip f.observer_only f.count f.at
            e x in
        let action =
          policy_action n a f.encoding f.policy f.device_id f.source_ip f.observer_only f.count
            f.at in
        let command =
          ban_command n a f.encoding f.policy f.device_id f.source_ip f.observer_only f.count
            f.at in
        let r = pending_ban b action.id in
        let recent = is_recent_ban_of d (f.at - hour) in
        let (u, v, first, last) =
          bind-inv (insert_policy_action_and_enqueue action command b "policy:ssh_bruteforce")
            (λ _. pure _) s h in
        let same : v ≡ t = unfold pure in cc in
        let rows = ap (count_where recent) (
          subst (λ w. w.bans ≡ s.bans ++ r ∷ []) same
            (enqueue-bans action command b "policy:ssh_bruteforce" s v u first)) in
        let room =
          (judge-Justified n a f.policy f.device_id f.source_ip f.observer_only f.count f.at s.bans
            e x j).allowed.room in
        let of_device : recent r ≡ true → f.device_id ≡ d = λ i.
          unfold is_recent_ban_of in
          unfold pending_ban in unfold temporary_ban in ground (arith, i, eq_iff f.device_id d) in
        elim (Bool-cases (recent r)) [
          | inr i ↦ ground (arith, rows, i, k, count-append recent s.bans r)
          | inl i ↦
              let here = ap (λ x. bans_of_hour x f.at s) (of_device i) in
              ground (arith, rows, i, here, room, m, count-append recent s.bans r)
        ]

    one-limit :
        (d : String) (limit now : ℕ) (s : Tables)
        → now ≤ f.at
        → f.policy.max_bans_per_hour ≤ limit
        → bans_of_hour d now s ≤ limit
        → bans_of_hour d f.at (transact one s).0 ≤ limit
    unfolding transact settle process_failure ◌>>=◌ read
    one-limit d limit now s later m k =
        settled s
          (omega (arith, k, fewer_later d s.bans (now - hour) (f.at - hour) (omega (arith, later))))
          m (out (verdict s.bans) s) refl
      where
        settled :
            (s : Tables)
            → bans_of_hour d f.at s ≤ limit
            → f.policy.max_bans_per_hour ≤ limit
            → (r : Outcome ProcessOutcome) → out (verdict s.bans) s ≡ r
            → bans_of_hour d f.at (settle s r).0 ≤ limit
        settled s k m (done o t) h = carry_out-limit d limit s t (verdict s.bans) o refl h m k
        settled s k m (fault e) h = k

  unfoldable pub process_failures : List Failure → Tables → Tables
  process_failures [] s = s
  process_failures (f ∷ failures) s = process_failures failures (transact (one f) s).0

  -- Whatever login failures are processed one after the other, of any devices and sources, if no
  -- policy allows more than `limit` bans of an hour, then at the end no device has more of the last
  -- hour, if it had no more at the start.
  pub hourly_limit :
      (limit start end : ℕ) (failures : List Failure) (d : String) (s : Tables)
      → Later limit start failures end
      → bans_of_hour d start s ≤ limit
      → bans_of_hour d end (process_failures failures s) ≤ limit
  unfolding process_failures
  hourly_limit limit start end [] d s ended k = k
  hourly_limit limit start end (f ∷ failures) d s (followed later m rest) k =
      hourly_limit limit f.at end failures d (transact (one f) s).0 rest
        (one-limit f d limit start s later m k)
