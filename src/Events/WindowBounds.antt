-- ===== src/Events/WindowBounds.antt =====
-- How many windows of a device there are after any calls.
use mathlib.Core.Path.{subst}
use witshield.Base.{
  ℕ, ◌+◌, ◌≤◌, String, Bool, true, false, ◌&&◌, ◌≡◌, refl, sym, ap, inl, inr, some, List,
  if◌then◌else◌, str_eq, eq_iff, Bool-cases, arith, ltb, leb,
}
use witshield.Actions.Statement.{is_none, count_where}
use witshield.Events.Rows.{WindowRow, EventStore, is_window_of, is_window}
use witshield.Events.Counts.{count-delete_le}
use witshield.Events.Retention.{record_correlation_capacity_degraded_tx}
use witshield.Events.Windows.{
  window_row, delete_where, prune_windows, limit_windows, increment_security_event_window_tx,
}
use witshield.Events.WindowCounts.{
  Covered, stored_count, windows_of, count-put_window, same_device, put_window_unique,
  delete_expired-Covered,
}
use witshield.Events.WindowCapacity.{count_tx-Covered, prune_windows-few, prune_windows-Covered}
use witshield.Events.Increments.{cleaned, written, old_row, new_row, increment-Counted}
use witshield.Events.Rules.{KeptByEvents, event_calls_keep}
use witshield.Events.Calls.{EventCall, event_calls, empty_events, maintain, is_over}
use witshield.Events.SameWindows.{
  Windowed, SameWindows, SameWindows-Covered, insert_event-Windowed, degraded-SameWindows,
  count_tx-rows, prune_windows-fewer, delete_expired-fewer,
}

limit_windows-Windowed :
    (payload d' type source d : String) (now count : ℕ) (s : EventStore)
    → Covered s d
    → (str_eq d' d ≡ false → windows_of d s ≤ 2000)
    → (str_eq d' d ≡ true → windows_of d s ≤ count)
    → Windowed (limit_windows payload d' type source now (s, count)) d
unfolding limit_windows
limit_windows-Windowed payload d' type source d now count s k other same =
    let degraded =
      if leb 2000 count then record_correlation_capacity_degraded_tx payload d' now s else s in
    let SameDegraded : SameWindows s degraded d = elim (Bool-cases (leb 2000 count)) [
      | inl e ↦
          subst (λ t. SameWindows s t d) (ground (arith, e))
            (degraded-SameWindows payload d' d now s)
      | inr e ↦
          let goes : s ≡ degraded = ground (arith, e) in
          let kept : SameWindows s s d = record { rows = refl; stored = refl } in
          subst (λ t. SameWindows s t d) goes kept
    ] in
    let kept = SameWindows-Covered s degraded d SameDegraded k in
    let rows = ap (count_where (is_window_of d)) SameDegraded.rows in
    let pruned : Windowed (prune_windows d' type source degraded) d = record {
      few = elim (Bool-cases (str_eq d' d)) [
        | inl i ↦
            let same_device : d' ≡ d = ground (arith, eq_iff d' d) in
            let unique = (subst (Covered degraded) (sym same_device) kept).unique type source in
            subst (λ x. windows_of x (prune_windows d' type source degraded) ≤ 2000) same_device
              (prune_windows-few d' type source degraded unique)
        | inr i ↦ omega (arith, prune_windows-fewer d' type source d degraded, rows, other i)
      ];
      covered = prune_windows-Covered d' type source d degraded kept;
    } in
    elim (Bool-cases (ltb 2000 count)) [
      | inl e ↦ subst (λ t. Windowed t d) (ground (arith, e)) pruned
      | inr e ↦
          let unpruned : Windowed degraded d = record {
            few = elim (Bool-cases (str_eq d' d)) [
              | inl i ↦ ground (arith, rows, same i, e)
              | inr i ↦ ground (arith, rows, other i)
            ];
            covered = kept;
          } in
          subst (λ t. Windowed t d) (ground (arith, e)) unpruned
    ]

increment-Windowed :
    (payload : ℕ → String) (d' type source d : String) (window occurred_at now : ℕ)
    → (s t : EventStore) (n : ℕ)
    → increment_security_event_window_tx payload d' type source window occurred_at now s
      ≡ some (t, n)
    → Windowed s d
    → Windowed t d
increment-Windowed payload d' type source d window occurred_at now s t n h k =
    let c = increment-Counted d' type source window occurred_at now s payload t n h in
    let old = old_row d' type source window occurred_at now s in
    let s0 = cleaned d' type source window occurred_at now s in
    let w = new_row d' type source window occurred_at now s in
    let s1 = written d' type source window occurred_at now s in
    let kept0 : Covered s0 d = delete_expired-Covered d' d now s k.covered in
    let fewer : windows_of d s0 ≤ windows_of d s = delete_expired-fewer d' d now s in
    let rows : windows_of d s1 ≡ windows_of d s0 + (if is_none old && str_eq d' d then 1 else 0) =
      unfold window_row in
      unfold is_window_of in count-put_window (is_window_of d) w s0.windows (same_device d w) in
    let unique : (type source : String) → count_where (is_window d type source) s1.windows ≤ 1 =
      λ t' u'. unfold window_row in put_window_unique w s0.windows d t' u' (kept0.unique t' u') in
    let kept1 : Covered c.counted_store d =
      count_tx-Covered d' d (is_none old) s1 c.counted_store c.count c.counts
        (λ b e. omega (arith, rows, kept0.enough b e)) unique in
    let (same_rows, stored) = count_tx-rows d' (is_none old) s1 c.counted_store c.count c.counts in
    let counts = ap (count_where (is_window_of d)) same_rows in
    subst (λ x. Windowed x d) (sym c.limits)
      (limit_windows-Windowed (payload c.count) d' type source d now c.count c.counted_store kept1
        (λ i. ground (arith, counts, rows, fewer, k.few, i))
        (λ i.
          let same : d' ≡ d = ground (arith, eq_iff d' d) in
          kept1.enough c.count
            (subst (λ x. stored_count x c.counted_store ≡ some c.count) same stored)))

maintain-Windowed :
    (now : ℕ) (s : EventStore) (d : String) → Windowed s d → Windowed (maintain now s) d
unfolding maintain
maintain-Windowed now s d k =
    let fewer : (q : WindowRow → Bool)
        → count_where q (delete_where (is_over now) s.windows) ≤ count_where q s.windows =
      λ q. count-delete_le q (is_over now) s.windows in
    record {
      few = omega (arith, fewer (is_window_of d), k.few);
      covered = record {
        enough = λ c e. omega (arith, fewer (is_window_of d), k.covered.enough c e);
        unique = λ t u. omega (arith, fewer (is_window d t u), k.covered.unique t u);
      };
    }

Windowed-KeptByEvents : (d : String) → KeptByEvents (λ s. Windowed s d)
Windowed-KeptByEvents d = record {
  inserted = λ e s k. insert_event-Windowed e s d k;
  counted = λ payload d' type source window occurred_at now s t n h k.
      increment-Windowed payload d' type source d window occurred_at now s t n h k;
  maintained = λ now s k. maintain-Windowed now s d k;
}

empty-Windowed : (d : String) → Windowed empty_events d
unfolding count_where
empty-Windowed d = record {
  few = omega arith;
  covered = record { enough = λ c e. omega arith; unique = λ t u. omega arith };
}

-- After any calls from empty tables, whatever their events, times and order, there are at most 2000
-- windows of a device, and at most one of each source.
pub windows_bounded :
    (calls : List EventCall) (d type source : String)
    → (windows_of d (event_calls calls empty_events) ≤ 2000)
      × (count_where (is_window d type source) (event_calls calls empty_events).windows ≤ 1)
windows_bounded calls d type source =
    let k =
      event_calls_keep (λ s. Windowed s d) (Windowed-KeptByEvents d) calls empty_events
        (empty-Windowed d) in
    (k.few, k.covered.unique type source)
