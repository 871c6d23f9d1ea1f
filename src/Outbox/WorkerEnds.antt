-- ===== src/Outbox/WorkerEnds.antt =====
-- That the worker of a channel comes to an end: internal/httpapi/notification_worker.go.
use witshield.Outbox.Backlog.{backlog_bounded}
use witshield.Outbox.Leases.Held.{steps, Step}
use witshield.Outbox.Keys.{steps-Distinct, end_lease-Distinct, claim-Distinct, complete-Distinct}
use mathlib.Core.Path.{subst}
use witshield.Base.{
  Bool-cases, All, List, refl, inr, inl, ◌&&◌, Option-cases, Bool, ℕ, ◌+◌, ◌≤◌, ◌≡◌, sym, ap, ◌∙◌,
  true, false, [], ◌∷◌, if◌then◌else◌, arith,
}
use witshield.Base.Dict.{Distinct}
use witshield.Outbox.Leases.{
  release, first_row, Answer, cancel, Channel, Table, NotificationDelivery, done, is_channel,
  is_due, update_row, claim,
}
use witshield.Outbox.Worker.{
  run_notification_channel, Sent, send_with, Round, deliver_claimed, deliver_notification,
  record_sent, run_round, notification_delivery_lease,
}
use witshield.Outbox.Attempts.{attempts_left, left-backlog, claim-Taken, claimed, deliver-left}

is_done : {A : Type 0} → Answer A → Bool
is_done (done _) = true
is_done _ = false

claim-idle :
    (channel : Channel) (now lease : ℕ) (table : Table)
    → is_done (claim channel now lease table).1 ≡ false
    → (claim channel now lease table).0 ≡ table
unfolding claim update_row is_done
claim-idle channel now lease table h =
    elim (Option-cases (first_row (λ r. is_channel channel r.channel && is_due now r) table)) [
      | inl e ↦ ground (arith, e)
      | inr ((id, r), e) ↦ ground (arith, e, h)
    ]

module _ (channel : Channel) (round : Round) (table : Table) (distinct : Distinct table)
    (running : round.cancelled ≡ false) where
  -- What a turn leaves, and what it has used.
  abbrev Used : Table × Bool → Type 0
  Used x = attempts_left channel x.0 + (if x.1 then 1 else 0) ≤ attempts_left channel table

  idle_round :
      (t : Table) (x : Answer NotificationDelivery)
      → claim channel round.claimed_at notification_delivery_lease table ≡ (t, x)
      → is_done x ≡ false
      → attempts_left channel t + 0 ≤ attempts_left channel table
  idle_round t x e idle =
      let stays =
        claim-idle channel round.claimed_at notification_delivery_lease table
          (ap (λ y. is_done y.1) e ∙ idle) in
      let same : t ≡ table = sym (ap (λ y. y.0) e) ∙ stays in
      omega (arith, ap (attempts_left channel) same)

  claimed_round :
      (x : Table × Answer NotificationDelivery)
      → claim channel round.claimed_at notification_delivery_lease table ≡ x
      → Used (deliver_claimed round x)
  unfolding deliver_claimed is_done
  claimed_round (t, done d) e =
      let taken = claim-Taken channel round.claimed_at table d distinct (ap (λ y. y.1) e) in
      let same : claimed channel round.claimed_at d table taken ≡ t =
        sym taken.written ∙ ap (λ y. y.0) e in
      subst
        (λ y.
          attempts_left channel (deliver_notification round d y).0 + 1
          ≤ attempts_left channel table)
        same (deliver-left channel round.claimed_at d table taken round running)
  claimed_round (t, Answer.invalid text) e = idle_round t (Answer.invalid text) e refl
  claimed_round (t, Answer.not_found) e = idle_round t Answer.not_found e refl
  claimed_round (t, Answer.conflict) e = idle_round t Answer.conflict e refl

  run_round-left : Used (run_round round channel table)
  unfolding run_round
  run_round-left =
      claimed_round (claim channel round.claimed_at notification_delivery_lease table) refl

record_sent-Distinct :
    (round : Round) (x : Sent) (d : NotificationDelivery) (table : Table)
    → Distinct table
    → Distinct (record_sent round x d table).0
unfolding record_sent cancel
record_sent-Distinct round Sent.sent d table h = complete-Distinct d true _ _ _ _ table h
record_sent-Distinct round Sent.disabled d table h = end_lease-Distinct d _ table h
record_sent-Distinct round (Sent.failed retryable text) d table h =
    complete-Distinct d false _ _ _ _ table h

release-Distinct :
    (d : NotificationDelivery) (now : ℕ) (table : Table)
    → Distinct table
    → Distinct (release d now table).0
unfolding release
release-Distinct d now table h = end_lease-Distinct d _ table h

deliver-Distinct :
    (round : Round) (d : NotificationDelivery) (table : Table)
    → Distinct table
    → Distinct (deliver_notification round d table).0
unfolding deliver_notification
deliver-Distinct round d table h =
    let sent = record_sent-Distinct round (send_with round round.sender d) d table h in
    elim (Bool-cases round.cancelled) [
      | inl e ↦ subst Distinct (ground (arith, e)) (release-Distinct d round.recorded_at table h)
      | inr e ↦ subst Distinct (ground (arith, e)) sent
    ]

claimed-Distinct :
    (round : Round) (x : Table × Answer NotificationDelivery)
    → Distinct x.0
    → Distinct (deliver_claimed round x).0
unfolding deliver_claimed
claimed-Distinct round (t, done d) h = deliver-Distinct round d t h
claimed-Distinct round (t, Answer.invalid text) h = h
claimed-Distinct round (t, Answer.not_found) h = h
claimed-Distinct round (t, Answer.conflict) h = h

run_round-Distinct :
    (channel : Channel) (round : Round) (table : Table)
    → Distinct table
    → Distinct (run_round round channel table).0
unfolding run_round
run_round-Distinct channel round table h =
    claimed-Distinct round (claim channel round.claimed_at notification_delivery_lease table)
      (claim-Distinct channel round.claimed_at notification_delivery_lease table h)

abbrev pub Running : Round → Type 0
Running round = round.cancelled ≡ false

run_channel-left :
    (channel : Channel) (rounds : List Round) (table : Table)
    → Distinct table
    → All Running rounds
    → attempts_left channel (run_notification_channel channel rounds table).0
        + (run_notification_channel channel rounds table).1
      ≤ attempts_left channel table
unfolding run_notification_channel
run_channel-left channel [] table distinct running = omega arith
run_channel-left channel (round ∷ rounds) table distinct (here, running) = omega (
  arith,
  run_round-left channel round table distinct here,
  run_channel-left channel rounds (run_round round channel table).0
      (run_round-Distinct channel round table distinct) running,
)

-- The worker of a channel comes to an end: however long it runs, whatever the transport does and whatever
-- the clock and the settings are, it tries at most 30000 deliveries (six for each of the 5000 that can
-- wait), if nothing is enqueued in the meantime; what came before, whatever it was, started from an
-- empty outbox.
pub worker_ends :
    (ss : List Step) (channel : Channel) (rounds : List Round)
    → All Running rounds
    → (run_notification_channel channel rounds (steps ss [])).1 ≤ 30000
worker_ends ss channel rounds running =
    let table = steps ss [] in
    omega (
      arith,
      run_channel-left channel rounds table (steps-Distinct ss [] tt) running,
      left-backlog channel table,
      backlog_bounded ss channel,
    )
