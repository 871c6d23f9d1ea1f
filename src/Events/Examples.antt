-- ===== src/Events/Examples.antt =====
-- Runs of the tables of security events on one device: four failed logins of an address, one of them a
-- repetition and two within the last window, an event that is only stored, and a deletion.
use witshield.Base.{
  ℕ, ◌+◌, ◌*◌, ◌≤◌, String, ◌≡◌, refl, some, List, [], ◌∷◌, ltb, suc, if◌then◌else◌,
}
use witshield.Base.Dict.{lookup, insert}
use witshield.Actions.Statement.{update_where, count_where, first_where}
use witshield.Defense.Correlator.{second}
use witshield.Events.Rows.{
  is_window_of, is_event, is_event_of, SecurityEvent, RetentionState, WindowRow, EventStore,
  is_window,
}
use witshield.Events.Windows.{increment_security_event_window_tx}
use witshield.Events.Calls.{EventCall, add, process, clean, event_calls, empty_events, day}
use witshield.Events.Bounds.{events_of, signals_of}
use witshield.Events.WindowCounts.{windows_of, stored_count}
use witshield.Events.Sequences.{events_bounded}
use witshield.Events.WindowBounds.{windows_bounded}
use witshield.Events.Samples.{recent, failures_counted}

abbrev start : ℕ
start = 30 * day

abbrev failure : String → ℕ → SecurityEvent
failure id at = record {
  id = id;
  device_id = "web-1";
  type = "ssh_auth_failure";
  source_ip = "203.0.113.9";
  occurred_at = at;
  payload = "";
}

abbrev failed_login : String → ℕ → EventCall
failed_login id at =
    process (λ count. "degraded") (failure id at) (some "203.0.113.9") (60 * second) at

-- The third failure is a repetition of the second.
abbrev some_calls : List EventCall
some_calls =
    failed_login "evt-1" start
    ∷ failed_login "evt-2" (start + 10 * second)
    ∷ failed_login "evt-2" (start + 10 * second)
    ∷ add (failure "evt-3" (start + 20 * second)) "evt-fresh"
    ∷ failed_login "evt-4" (start + 65 * second)
    ∷ []

run_events : events_of "web-1" (event_calls some_calls empty_events) ≡ 4
unfolding event_calls count_where first_where lookup insert is_window_of is_event is_window
    update_where is_event_of
run_events = refl

run_windows : windows_of "web-1" (event_calls some_calls empty_events) ≡ 1
unfolding event_calls count_where first_where lookup insert is_window_of is_event is_window
    update_where is_event_of
run_windows = refl

-- The first failure is out of the window of the last.
run_count :
    first_where
      (is_window "web-1" "ssh_auth_failure" "203.0.113.9")
      (event_calls some_calls empty_events).windows
    ≡ some (record {
      device_id = "web-1";
      type = "ssh_auth_failure";
      source_ip = "203.0.113.9";
      window_seconds = 60;
      window_started_at = start + 10 * second;
      last_seen_at = start + 65 * second;
      event_count = 2;
      event_times = 2592010000 ∷ 2592065000 ∷ [];
      window_ends_at = some (start + 125 * second);
    })
unfolding event_calls count_where first_where lookup insert is_window_of is_event is_window
    update_where is_event_of
run_count = refl

-- After the deletions of a week later the tables are empty, but the count of the windows is still one.
run_clean :
    (windows_of "web-1"
        (event_calls (clean (start + 8 * day) ∷ []) (event_calls some_calls empty_events))
      ≡ 0)
    × (events_of "web-1"
          (event_calls (clean (start + 8 * day) ∷ []) (event_calls some_calls empty_events))
        ≡ 0)
    × (stored_count "web-1"
          (event_calls (clean (start + 8 * day) ∷ []) (event_calls some_calls empty_events))
        ≡ some 1)
unfolding event_calls count_where first_where lookup insert is_window_of is_event is_window
    update_where is_event_of
run_clean = (refl, refl, refl)

events_bounded_example :
    (events_of "web-1" (event_calls some_calls empty_events) ≤ 2127)
    × (signals_of "web-1" (event_calls some_calls empty_events) ≤ 1)
events_bounded_example = events_bounded some_calls "web-1"

windows_bounded_example :
    (windows_of "web-1" (event_calls some_calls empty_events) ≤ 2000)
    × (count_where
          (is_window "web-1" "ssh_auth_failure" "203.0.113.9")
          (event_calls some_calls empty_events).windows
        ≤ 1)
windows_bounded_example = windows_bounded some_calls "web-1" "ssh_auth_failure" "203.0.113.9"

abbrev state : RetentionState
state = record { since_prune = 4; window_count = some 1 }

abbrev before : EventStore
before = event_calls some_calls empty_events

before_retention : lookup "web-1" before.retention ≡ some state
unfolding event_calls count_where first_where lookup insert is_window_of is_event is_window
    update_where is_event_of
before_retention = refl

failures_counted_example :
    (t : EventStore) × (w : WindowRow) × (increment_security_event_window_tx
        (λ count. "degraded")
        "web-1"
        "ssh_auth_failure"
        "203.0.113.9"
        (60 * second)
        (start + 66 * second)
        (start + 66 * second)
        before
      ≡ some (t, w.event_count))
    × (w.event_count ≡ (
        if ltb
          (recent
            (λ count. "degraded")
            "web-1"
            "ssh_auth_failure"
            "203.0.113.9"
            (60 * second)
            (start + 66 * second)
            (start + 66 * second)
            before)
          100
        then suc (
            recent
              (λ count. "degraded")
              "web-1"
              "ssh_auth_failure"
              "203.0.113.9"
              (60 * second)
              (start + 66 * second)
              (start + 66 * second)
              before)
        else 100))
    × (w.last_seen_at ≡ start + 66 * second)
    × (first_where (is_window "web-1" "ssh_auth_failure" "203.0.113.9") t.windows ≡ some w)
failures_counted_example =
    failures_counted (λ count. "degraded") "web-1" "ssh_auth_failure" "203.0.113.9" (60 * second)
      (start + 66 * second) (start + 66 * second) before state before_retention
