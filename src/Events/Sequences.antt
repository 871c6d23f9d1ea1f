-- ===== src/Events/Sequences.antt =====
-- How many events of a device the table holds after any calls.
use mathlib.Core.Path.{subst}
use witshield.Base.{
  ◌*◌, ℕ, ◌-◌, ◌≤◌, String, Bool, ◌≡◌, refl, sym, inl, inr, some, List, if◌then◌else◌, eq_iff,
  Bool-cases, Option-cases, arith, ltb, leb,
}
use witshield.Base.Dict.{lookup, lookup-insert}
use witshield.Actions.Statement.{is_none, count_where}
use witshield.Events.Trim.{keep_first}
use witshield.Events.Rows.{is_event, is_event_of, is_window_of, is_weaker, EventStore}
use witshield.Events.Counts.{count-delete_le}
use witshield.Events.Retention.{
  correlation_capacity_event_id, record_correlation_capacity_degraded_tx,
}
use witshield.Events.Windows.{
  minus, is_expired, delete_where, next_count, is_other_window, reduce_at, reduce_window_count,
  delete_expired, security_event_window_count_tx, prune_windows, limit_windows,
  increment_security_event_window_tx,
}
use witshield.Events.Bounds.{signals_of, since_of, events_of, Kept, insert_event-Kept}
use witshield.Events.Signal.{record_degraded-Kept}
use witshield.Events.Increments.{cleaned, written, old_row, increment-Counted}
use witshield.Events.Rules.{KeptByEvents, event_calls_keep}
use witshield.Events.Calls.{day, EventCall, event_calls, empty_events, maintain}

-- A change of the windows and their counts alone.
record SameEvents (s t : EventStore) (d : String) : Type 0 where
  pub rows : t.events ≡ s.events
  pub since : since_of (lookup d t.retention) ≡ since_of (lookup d s.retention)

SameEvents-Kept : (s t : EventStore) (d : String) → SameEvents s t d → Kept s d → Kept t d
SameEvents-Kept s t d h k = record {
  bounded = rw (h.rows, h.since) k.bounded;
  batch = rw h.since k.batch;
  single = rw h.rows k.single;
}

reduce_window_count-SameEvents :
    (d' d : String) (n : ℕ) (s : EventStore) → SameEvents s (reduce_window_count d' n s) d
unfolding reduce_window_count reduce_at
reduce_window_count-SameEvents d' d n s = elim (Option-cases (lookup d' s.retention)) [
  | inl e ↦ record { rows = ground (arith, e); since = ground (arith, e) }
  | inr (r, e) ↦ record {
    rows = ground (arith, e);
    since = ground (
      arith,
      e,
      eq_iff d' d,
      lookup-insert d' d (record r { window_count = minus n r.window_count }) s.retention,
    );
  }
]

delete_expired-SameEvents :
    (d' d : String) (now : ℕ) (s : EventStore) → SameEvents s (delete_expired d' now s) d
unfolding delete_expired
delete_expired-SameEvents d' d now s =
    let expired = count_where (is_expired d' now) s.windows in
    let s' : EventStore = record s { windows = delete_where (is_expired d' now) s.windows } in
    let reduced = reduce_window_count-SameEvents d' d expired s' in
    elim (Bool-cases (ltb 0 expired)) [
      | inl e ↦
          let goes : delete_expired d' now s ≡ reduce_window_count d' expired s' = ground arith in
          subst (λ t. SameEvents s t d) (sym goes)
            (record { rows = reduced.rows; since = reduced.since })
      | inr e ↦
          let goes : delete_expired d' now s ≡ s' = ground arith in
          subst (λ t. SameEvents s t d) (sym goes) (record { rows = refl; since = refl })
    ]

prune_windows-SameEvents :
    (d' type source d : String) (s : EventStore) → SameEvents s (prune_windows d' type source s) d
unfolding prune_windows
prune_windows-SameEvents d' type source d s =
    let other = is_other_window d' type source in
    let windows = keep_first other 1999 is_weaker s.windows in
    let reduced =
      reduce_window_count-SameEvents d' d (count_where other s.windows - count_where other windows)
        (record s { windows = windows }) in
    record { rows = reduced.rows; since = reduced.since }

count_tx-SameEvents :
    (d' d : String) (new_source : Bool) (s t : EventStore) (n : ℕ)
    → security_event_window_count_tx d' new_source s ≡ some (t, n)
    → SameEvents s t d
unfolding security_event_window_count_tx
count_tx-SameEvents d' d new_source s t n h = elim (Option-cases (lookup d' s.retention)) [
  | inl e ↦ ground (arith, e, h)
  | inr (r, e) ↦
      let count = next_count r.window_count new_source (count_where (is_window_of d') s.windows) in
      record {
        rows = ground (arith, e, h);
        since = ground (
          arith,
          e,
          h,
          eq_iff d' d,
          lookup-insert d' d (record r { window_count = some count }) s.retention,
        );
      }
]

limit_windows-Kept :
    (payload d' type source d : String) (now count : ℕ) (s : EventStore)
    → Kept s d
    → Kept (limit_windows payload d' type source now (s, count)) d
unfolding limit_windows
limit_windows-Kept payload d' type source d now count s k =
    let degraded =
      if leb 2000 count then record_correlation_capacity_degraded_tx payload d' now s else s in
    let kept : Kept degraded d = elim (Bool-cases (leb 2000 count)) [
      | inl e ↦ subst (λ t. Kept t d) (ground arith) (record_degraded-Kept payload d' d now s k)
      | inr e ↦ subst (λ t. Kept t d) (ground arith) k
    ] in
    let pruned =
      SameEvents-Kept degraded (prune_windows d' type source degraded) d
        (prune_windows-SameEvents d' type source d degraded) kept in
    elim (Bool-cases (ltb 2000 count)) [
      | inl e ↦ subst (λ t. Kept t d) (ground arith) pruned
      | inr e ↦ subst (λ t. Kept t d) (ground arith) kept
    ]

increment-Kept :
    (payload : ℕ → String) (d' type source d : String) (window occurred_at now : ℕ)
    → (s t : EventStore) (n : ℕ)
    → increment_security_event_window_tx payload d' type source window occurred_at now s
      ≡ some (t, n)
    → Kept s d
    → Kept t d
unfolding increment_security_event_window_tx
increment-Kept payload d' type source d window occurred_at now s t n h k =
    let c = increment-Counted d' type source window occurred_at now s payload t n h in
    let s0 = cleaned d' type source window occurred_at now s in
    let w = written d' type source window occurred_at now s in
    let kept0 = SameEvents-Kept s s0 d (delete_expired-SameEvents d' d now s) k in
    let kept1 = SameEvents-Kept s0 w d (record { rows = refl; since = refl }) kept0 in
    let kept2 =
      SameEvents-Kept w c.counted_store d
        (count_tx-SameEvents d' d (is_none (old_row d' type source window occurred_at now s)) w
          c.counted_store c.count c.counts)
        kept1 in
    subst (λ x. Kept x d) (sym c.limits)
      (limit_windows-Kept (payload c.count) d' type source d now c.count c.counted_store kept2)

maintain-Kept : (now : ℕ) (s : EventStore) (d : String) → Kept s d → Kept (maintain now s) d
unfolding maintain
maintain-Kept now s d k = record {
  bounded = omega (
    arith,
    k.bounded,
    count-delete_le (is_event_of d) (λ e. ltb e.occurred_at (now - 7 * day)) s.events,
  );
  batch = k.batch;
  single = omega (
    arith,
    k.single,
    count-delete_le (is_event d correlation_capacity_event_id)
        (λ e. ltb e.occurred_at (now - 7 * day)) s.events,
  );
}

Kept-KeptByEvents : (d : String) → KeptByEvents (λ s. Kept s d)
Kept-KeptByEvents d = record {
  inserted = λ e s k. insert_event-Kept e s d k;
  counted = λ payload d' type source window occurred_at now s t n h k.
      increment-Kept payload d' type source d window occurred_at now s t n h k;
  maintained = λ now s k. maintain-Kept now s d k;
}

empty-Kept : (d : String) → Kept empty_events d
unfolding count_where lookup
empty-Kept d = record { bounded = omega arith; batch = omega arith; single = omega arith }

-- After any calls from empty tables, whatever their events, times and order, the table of
-- events holds at most 2127 events of a device, and at most one of them is its health signal.
pub events_bounded :
    (calls : List EventCall) (d : String)
    → (events_of d (event_calls calls empty_events) ≤ 2127)
      × (signals_of d (event_calls calls empty_events) ≤ 1)
events_bounded calls d =
    let k =
      event_calls_keep (λ s. Kept s d) (Kept-KeptByEvents d) calls empty_events (empty-Kept d) in
    (omega (arith, k.bounded, k.batch), k.single)
