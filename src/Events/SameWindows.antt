-- ===== src/Events/SameWindows.antt =====
-- What the single writes keep of the windows of a device and their count.
use mathlib.Core.Path.{subst}
use witshield.Base.{
  ◌++◌, ℕ, ◌-◌, ◌≤◌, String, Bool, ◌≡◌, ◌∙◌, sym, ap, inl, inr, some, [], ◌∷◌, eq_iff, Bool-cases,
  Option-cases, arith,
}
use witshield.Base.Dict.{lookup, lookup-insert}
use witshield.Actions.Statement.{is_none, count_where, first_where}
use witshield.Events.Rows.{is_event, SecurityEvent, EventStore, is_window_of, is_weaker}
use witshield.Events.Trim.{keep_first, count-keep_first_mono}
use witshield.Events.Counts.{count-delete_le}
use witshield.Events.Retention.{
  counted, prune_counted, prune_security_events_tx, insert_event, reset_at, reset_since_prune,
  trim_events, record_correlation_capacity_degraded_tx,
}
use witshield.Events.Windows.{
  delete_expired, delete_where, is_expired, is_other_window, next_count,
  security_event_window_count_tx, prune_windows,
}
use witshield.Events.WindowCounts.{Covered, stored_count, windows_of, reduce-windows}

pub record Windowed (s : EventStore) (d : String) : Type 0 where
  pub few : windows_of d s ≤ 2000
  pub covered : Covered s d

-- A change of the events and their retention alone.
pub record SameWindows (s t : EventStore) (d : String) : Type 0 where
  pub rows : t.windows ≡ s.windows
  pub stored : stored_count d t ≡ stored_count d s

pub SameWindows-Covered :
    (s t : EventStore) (d : String) → SameWindows s t d → Covered s d → Covered t d
SameWindows-Covered s t d h k = record {
  enough = λ c e. rw h.rows (k.enough c (sym h.stored ∙ e));
  unique = λ type source. rw h.rows (k.unique type source);
}

SameWindows-Windowed :
    (s t : EventStore) (d : String) → SameWindows s t d → Windowed s d → Windowed t d
SameWindows-Windowed s t d h k = record {
  few = rw h.rows k.few;
  covered = SameWindows-Covered s t d h k.covered;
}

prune-SameWindows :
    (d' d : String) (s : EventStore) → SameWindows s (prune_security_events_tx d' s) d
unfolding prune_security_events_tx prune_counted trim_events counted
prune-SameWindows d' d s =
    let r = counted (lookup d' s.retention) in
    record {
      rows = ground arith;
      stored = elim (Option-cases (lookup d' s.retention)) [
        | inl e ↦ ground (
          arith,
          e,
          eq_iff d' d,
          lookup-insert d' d r s.retention,
          lookup-insert d' d (record r { since_prune = 0 }) s.retention,
        )
        | inr (r', e) ↦ ground (
          arith,
          e,
          eq_iff d' d,
          lookup-insert d' d r s.retention,
          lookup-insert d' d (record r { since_prune = 0 }) s.retention,
        )
      ];
    }

pub insert_event-Windowed :
    (e : SecurityEvent) (s : EventStore) (d : String)
    → Windowed s d
    → Windowed (insert_event e s).0 d
unfolding insert_event
insert_event-Windowed e s d k =
    let new = is_none (first_where (is_event e.device_id e.id) s.events) in
    let s' : EventStore = record s { events = s.events ++ e ∷ [] } in
    let pruned = prune-SameWindows e.device_id d s' in
    let kept : Windowed (prune_security_events_tx e.device_id s') d =
      SameWindows-Windowed s (prune_security_events_tx e.device_id s') d
        (record { rows = pruned.rows; stored = pruned.stored }) k in
    elim (Bool-cases new) [
      | inl h ↦ subst (λ t. Windowed t d) (ground (arith, h)) kept
      | inr h ↦ subst (λ t. Windowed t d) (ground (arith, h)) k
    ]

pub degraded-SameWindows :
    (payload d' d : String) (now : ℕ) (s : EventStore)
    → SameWindows s (record_correlation_capacity_degraded_tx payload d' now s) d
unfolding record_correlation_capacity_degraded_tx reset_since_prune reset_at trim_events
degraded-SameWindows payload d' d now s = elim (Option-cases (lookup d' s.retention)) [
  | inl e ↦ record { rows = ground (arith, e); stored = ground (arith, e) }
  | inr (r, e) ↦ record {
    rows = ground (arith, e);
    stored =
        ground
          (arith, e, eq_iff d' d, lookup-insert d' d (record r { since_prune = 0 }) s.retention);
  }
]

pub count_tx-rows :
    (d : String) (new_source : Bool) (s t : EventStore) (n : ℕ)
    → security_event_window_count_tx d new_source s ≡ some (t, n)
    → (t.windows ≡ s.windows) × (stored_count d t ≡ some n)
unfolding security_event_window_count_tx
count_tx-rows d new_source s t n h = elim (Option-cases (lookup d s.retention)) [
  | inl e ↦ ground (arith, e, h)
  | inr (r, e) ↦
      let count = next_count r.window_count new_source (count_where (is_window_of d) s.windows) in
      let stored = lookup-insert d d (record r { window_count = some count }) s.retention in
      (ground (arith, e, h), ground (arith, e, h, stored, eq_iff d d))
]

pub prune_windows-fewer :
    (d' type source d : String) (s : EventStore)
    → windows_of d (prune_windows d' type source s) ≤ windows_of d s
unfolding prune_windows
prune_windows-fewer d' type source d s =
    let other = is_other_window d' type source in
    let windows = keep_first other 1999 is_weaker s.windows in
    let n = count_where other s.windows - count_where other windows in
    omega (
      arith,
      ap (count_where (is_window_of d)) (reduce-windows d' n (record s { windows = windows })),
      count-keep_first_mono other (is_window_of d) 1999 is_weaker s.windows,
    )

pub delete_expired-fewer :
    (d' d : String) (now : ℕ) (s : EventStore)
    → windows_of d (delete_expired d' now s) ≤ windows_of d s
unfolding delete_expired
delete_expired-fewer d' d now s =
    let p = is_expired d' now in
    let t : EventStore = record s { windows = delete_where p s.windows } in
    ground (
      arith,
      ap (count_where (is_window_of d)) (reduce-windows d' (count_where p s.windows) t),
      count-delete_le (is_window_of d) p s.windows,
    )
