-- ===== src/Outbox/Examples.antt =====
-- Runs of the notification outbox at concrete inputs.
use witshield.Base.{
  some, false, true, ℕ, ◌≤◌, ◌<◌, String, ◌≡◌, ◌≢◌, refl, Bool, none, List, [], ◌∷◌, arith,
}
use witshield.Base.Dict.{lookup, insert, Distinct}
use witshield.Outbox.Leases
use witshield.Outbox.Enqueue.{
  Wire, NotificationEvent, NotificationSettings, backlog, enqueue_notification_tx,
}
use witshield.Outbox.Worker.{Sent, ready, Round, run_notification_channel}
use witshield.Events.Trim.{keep_first}
use witshield.Outbox.Backlog.{backlog_bounded}
use witshield.Outbox.WorkerEnds.{worker_ends}
use witshield.Actions.Statement.{count_where, first_where}
use witshield.Outbox.Leases.{
  Channel, webhook, smtp, pending, Row, Table, NotificationDelivery, done, conflict, first_row,
  update_row, is_due, is_channel, is_valid_channel, claim, complete, end_lease, holds, is_time,
  completed,
}
use witshield.Outbox.Leases.Held.{enqueues, Step, claims, prunes, steps, step}
use witshield.Outbox.Leases.Exclusion.{lease_exclusive, late_completion_refused}

abbrev waiting : Row
waiting = record {
  event_id = "e1";
  channel = webhook;
  event = "{}";
  settings_version = 1;
  status = pending;
  attempts = 0;
  next_attempt_at = 5;
  lease_until = none;
  last_error = "";
  created_at = 5;
  updated_at = 5;
  delivered_at = none;
}

abbrev table : Table
table = ("n2", record waiting { next_attempt_at = 9; created_at = 9 }) ∷ ("n1", waiting) ∷ []

abbrev first_lease : NotificationDelivery
first_lease = record {
  id = "n1";
  event_id = "e1";
  channel = webhook;
  event = "{}";
  attempts = 1;
  lease_until = 40;
  created_at = 5;
  settings_updated_at = 1;
}

outbox : Unit {0}
unfolding claim lookup insert step steps complete end_lease holds is_time completed Leases.prune
outbox = tt

-- The oldest row is leased, and the lease keeps it from the next worker.
claim_run :
    let (leased_table, first_answer) = claim webhook 10 30 table in
    let (_, second_answer) = claim webhook 12 30 leased_table in
    (first_answer ≡ done first_lease)
    × (second_answer ≡ done (record first_lease { id = "n2"; lease_until = 42; created_at = 9 }))
unfolding outbox
claim_run = (refl, refl)

table-Distinct : Distinct table
unfolding lookup
table-Distinct = (refl, (refl, tt))

abbrev others : List Step
others = claims webhook 12 30 ∷ prunes 100 ∷ []

lease_exclusive_example :
    let later = steps others (claim webhook 10 30 table).0 in
    ((delivered : Bool) (retry_at at max_attempts : ℕ) (last_error : String)
      → 1 ≤ max_attempts
      → (complete first_lease delivered retry_at at max_attempts last_error later).1 ≡ done tt)
    × ((channel' : Channel) (at lease' : ℕ) (e : NotificationDelivery)
        → at < first_lease.lease_until
        → (claim channel' at lease' later).1 ≡ done e
        → e.id ≢ first_lease.id)
lease_exclusive_example =
    lease_exclusive webhook 10 30 table first_lease others table-Distinct claim_run.0
      (omega arith, (tt, tt))

-- The worker of the first lease comes back after the row was leased again.
abbrev second_lease : NotificationDelivery
second_lease = record first_lease { attempts = 2; lease_until = 80 }

again_run :
    (claim webhook 50 30 (claim webhook 10 30 (("n1", waiting) ∷ [])).0).1 ≡ done second_lease
unfolding outbox
again_run = refl

late_completion_refused_example :
    let later =
      steps
        (prunes 100 ∷ [])
        (claim webhook 50 30 (claim webhook 10 30 (("n1", waiting) ∷ [])).0).0 in
    complete first_lease true 0 90 5 "" later ≡ (later, conflict)
unfolding outbox
late_completion_refused_example =
    late_completion_refused webhook 50 30 (claim webhook 10 30 (("n1", waiting) ∷ [])).0
      second_lease first_lease (prunes 100 ∷ []) (refl, tt) refl (tt, tt) refl
      (λ i a b. omega arith) true 0 90 5 "" (omega arith)

-- Texts of events are their types.
abbrev wire : Wire
wire = record {
  trim_space = λ s. s;
  marshal = λ e. some e.type;
  type_of = λ s. s;
  device_of = λ _. "web-1";
}

abbrev report : String → NotificationEvent
report id = record { id = id; type = "report_completed"; device_id = "web-1" }

abbrev settings : NotificationSettings
settings = record { webhook_enabled = true; smtp_enabled = true; updated_at = 3 }

-- Two reports, the first of them twice.
abbrev reports : List Step
reports =
    enqueues wire (report "r1") (some settings) "a" "b" true 10
    ∷ enqueues wire (report "r1") (some settings) "c" "d" false 11
    ∷ enqueues wire (report "r2") (some settings) "e" "f" false 12
    ∷ []

run_reports : (backlog webhook (steps reports []) ≡ 2) × (backlog smtp (steps reports []) ≡ 2)
unfolding steps step enqueue_notification_tx count_where first_where lookup insert keep_first
run_reports = (refl, refl)

-- The transport fails, for now or for good.
abbrev rounds : List Round
rounds =
    record {
      claimed_at = 20;
      sender = ready 3;
      send = λ _. Sent.failed true "timeout";
      recorded_at = 21;
      cancelled = false;
    }
    ∷ record {
      claimed_at = 22;
      sender = ready 3;
      send = λ _. Sent.failed false "refused";
      recorded_at = 23;
      cancelled = false;
    }
    ∷ record {
      claimed_at = 24;
      sender = ready 3;
      send = λ _. Sent.sent;
      recorded_at = 25;
      cancelled = false;
    }
    ∷ []

-- Two deliveries are tried; in the third round the first one waits for its retry.
run_rounds :
    ((run_notification_channel webhook rounds (steps reports [])).1 ≡ 2)
    × (backlog webhook (run_notification_channel webhook rounds (steps reports [])).0 ≡ 1)
unfolding run_notification_channel steps step enqueue_notification_tx count_where first_where lookup
    insert claim complete keep_first
run_rounds = (refl, refl)

backlog_bounded_example : backlog webhook (steps reports []) ≤ 5000
backlog_bounded_example = backlog_bounded reports webhook

worker_ends_example : (run_notification_channel webhook rounds (steps reports [])).1 ≤ 30000
worker_ends_example = worker_ends reports webhook rounds (refl, (refl, (refl, tt)))
