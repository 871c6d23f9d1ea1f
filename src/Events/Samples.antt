-- ===== src/Events/Samples.antt =====
-- What `incrementSecurityEventWindowTx` counts, and the row of the source that it leaves.
use witshield.Base.{
  ◌==◌, Option, ◌&&◌, not, ℕ, zero, suc, ◌-◌, ◌/◌, String, Bool, true, false, ◌≡◌, refl, ◌∙◌, ap,
  inl, inr, none, some, List, [], ◌∷◌, ◌++◌, if◌then◌else◌, eq_iff, Bool-cases, Option-cases, arith,
  ltb, leb, length,
}
use witshield.Base.Dict.{lookup, insert, lookup-insert}
use witshield.Actions.Statement.{is_none, count_where, first_where, update_where}
use witshield.Defense.Correlator.{second}
use witshield.Events.Rows.{
  RetentionState, WindowRow, EventStore, millisecond, is_window_of, is_window, is_weaker,
}
use witshield.Events.Trim.{keep_first, keep_first_apart}
use witshield.Events.Retention.{record_correlation_capacity_degraded_tx}
use witshield.Events.Windows.{
  has_ended, is_expired, minus, delete_where, insert_sorted, sort, drop, samples, kept_samples,
  window_row, put_window, reduce_at, reduce_window_count, next_count,
  security_event_window_count_tx, is_other_window, prune_windows, limit_windows,
  increment_security_event_window_tx, delete_expired,
}
use witshield.Events.WindowCounts.{reduce-windows}
use witshield.Events.SameWindows.{count_tx-rows, degraded-SameWindows}
use witshield.Events.Increments.{cleaned, written, old_row, new_samples, new_row, increment-Counted}

length-insert_sorted :
    (t : ℕ) (times : List ℕ) → length (insert_sorted t times) ≡ suc (length times)
unfolding insert_sorted
length-insert_sorted t [] = refl
length-insert_sorted t (u ∷ times) = ground (arith, length-insert_sorted t times)

length-sort : (times : List ℕ) → length (sort times) ≡ length times
unfolding sort
length-sort [] = refl
length-sort (t ∷ times) = length-insert_sorted t (sort times) ∙ ap suc (length-sort times)

length-drop : (n : ℕ) (times : List ℕ) → length (drop n times) ≡ length times - n
unfolding drop
length-drop zero times = omega arith
length-drop (suc n) [] = omega arith
length-drop (suc n) (t ∷ times) = ground (arith, length-drop n times)

length-remaining :
    (cutoff sample : ℕ) (times : List ℕ)
    → length (delete_where (λ t. ltb t cutoff) times ++ sample ∷ [])
      ≡ suc (count_where (leb cutoff) times)
unfolding delete_where count_where
length-remaining cutoff sample [] = refl
length-remaining cutoff sample (t ∷ times) = ground (arith, length-remaining cutoff sample times)

-- The samples not older than the window, and the new one; at most 100.
length-kept_samples :
    (times : List ℕ) (cutoff sample : ℕ)
    → length (kept_samples times cutoff sample) ≡ (
        if ltb (count_where (leb cutoff) times) 100
        then suc (count_where (leb cutoff) times)
        else 100)
unfolding kept_samples
length-kept_samples times cutoff sample =
    let all = delete_where (λ t. ltb t cutoff) times ++ sample ∷ [] in
    ground (
      arith,
      length-drop (length (sort all) - 100) (sort all),
      length-sort all,
      length-remaining cutoff sample times,
    )

first-append :
    {A : Type 0} (p : A → Bool) (rows : List A) (x : A)
    → first_where p rows ≡ none
    → p x ≡ true
    → first_where p (rows ++ x ∷ []) ≡ some x
unfolding first_where
first-append p [] x h e = ground (arith, e)
first-append p (y ∷ rows) x h e = ground (arith, e, first-append p rows x)

first-update :
    {A : Type 0} (p : A → Bool) (rows : List A) (x y : A)
    → first_where p rows ≡ some y
    → p x ≡ true
    → first_where p (update_where p (λ _. x) rows) ≡ some x
unfolding first_where update_where
first-update p [] x y h e = cc
first-update p (z ∷ rows) x y h e = ground (arith, h, e, first-update p rows x y)

first-put_window :
    (w : WindowRow) (rows : List WindowRow)
    → first_where
        (is_window w.device_id w.type w.source_ip)
        (put_window (first_where (is_window w.device_id w.type w.source_ip) rows) w rows)
      ≡ some w
unfolding put_window
first-put_window w rows =
    let key = is_window w.device_id w.type w.source_ip in
    let own : key w ≡ true =
      unfold is_window in
      ground (
        arith,
        eq_iff w.device_id w.device_id,
        eq_iff w.type w.type,
        eq_iff w.source_ip w.source_ip,
      ) in
    elim (Option-cases (first_where key rows)) [
      | inl e ↦ let added = first-append key rows w e own in ground (arith, e, added)
      | inr (y, e) ↦ let updated = first-update key rows w y e own in ground (arith, e, updated)
    ]

-- The capacity leaves the row of the source alone.
first-prune_windows :
    (d type source : String) (s : EventStore)
    → first_where (is_window d type source) (prune_windows d type source s).windows
      ≡ first_where (is_window d type source) s.windows
unfolding prune_windows
first-prune_windows d type source s =
    let other = is_other_window d type source in
    let windows = keep_first other 1999 is_weaker s.windows in
    let n = count_where other s.windows - count_where other windows in
    ap (first_where (is_window d type source)) (reduce-windows d n (record s { windows = windows }))
    ∙ (keep_first_apart other (is_window d type source) (apart d type source) 1999 is_weaker
        s.windows).1
  where
    apart :
        (d type source : String) (w : WindowRow)
        → is_other_window d type source w ≡ true
        → is_window d type source w ≡ false
    apart d type source w h = unfold is_other_window in unfold is_window in ground arith

first-limit_windows :
    (payload d type source : String) (now count : ℕ) (s : EventStore)
    → first_where
        (is_window d type source)
        (limit_windows payload d type source now (s, count)).windows
      ≡ first_where (is_window d type source) s.windows
unfolding limit_windows
first-limit_windows payload d type source now count s = ground (
  arith,
  first-prune_windows d type source s,
  first-prune_windows d type source (record_correlation_capacity_degraded_tx payload d now s),
  (degraded-SameWindows payload d d now s).rows,
)

delete_expired-returns :
    (d : String) (now : ℕ) (s : EventStore) (r : RetentionState)
    → lookup d s.retention ≡ some r
    → (r' : RetentionState) × (lookup d (delete_expired d now s).retention ≡ some r')
unfolding delete_expired reduce_window_count reduce_at
delete_expired-returns d now s r h =
    let n = count_where (is_expired d now) s.windows in
    let less : RetentionState = record r { window_count = minus n r.window_count } in
    elim (Bool-cases (ltb 0 n)) [
      | inl e ↦ (less, ground (arith, h, e, eq_iff d d, lookup-insert d d less s.retention))
      | inr e ↦ (r, ground (arith, h, e))
    ]

count_tx-returns :
    (d : String) (new_source : Bool) (s : EventStore) (r : RetentionState)
    → lookup d s.retention ≡ some r
    → (t : EventStore) × (n : ℕ) × (security_event_window_count_tx d new_source s ≡ some (t, n))
unfolding security_event_window_count_tx
count_tx-returns d new_source s r h =
    let count = next_count r.window_count new_source (count_where (is_window_of d) s.windows) in
    let t : EventStore = record s {
      retention = insert d (record r { window_count = some count }) s.retention;
    } in
    (t, count, ground (arith, h))

-- How many samples are not before the cutoff.
unfoldable pub young : ℕ → List ℕ → ℕ
young cutoff [] = 0
young cutoff (t ∷ times) = let rest = young cutoff times in if ltb t cutoff then rest else suc rest

count-young : (cutoff : ℕ) (times : List ℕ) → count_where (leb cutoff) times ≡ young cutoff times
unfolding count_where young
count-young cutoff [] = refl
count-young cutoff (t ∷ times) = ground (arith, count-young cutoff times)

module _ (payload : ℕ → String) (d type source : String) (window occurred_at now : ℕ) where
  -- The row of the source has not ended.
  abbrev pub is_standing : WindowRow → Bool
  is_standing w =
      is_window d type source w
      && elim w.window_ends_at [ none ↦ true | some ends_at ↦ ltb now ends_at ]

  -- The samples of a row of this length that the window still holds, to the millisecond.
  abbrev pub held : Option WindowRow → ℕ
  held none = 0
  held (some w) =
      if w.window_seconds == window / second
      then young ((now - window) / millisecond) w.event_times
      else 0

  -- What the stored row of the source counts for.
  abbrev pub recent : EventStore → ℕ
  recent s = held (first_where is_standing s.windows)

  first-standing :
      (rows : List WindowRow)
      → first_where (is_window d type source) (delete_where (is_expired d now) rows)
        ≡ first_where is_standing rows
  unfolding first_where delete_where
  first-standing [] = refl
  first-standing (w ∷ rows) = ground (arith, standing w, first-standing rows)
    where
      standing :
          (w : WindowRow) → is_standing w ≡ (not (is_expired d now w) && is_window d type source w)
      standing w =
          unfold is_expired in
          unfold has_ended in
          unfold is_window in
          elim (Option-cases w.window_ends_at) [ inl e ↦ ground arith | inr (t, e) ↦ ground arith ]

  windows-delete_expired :
      (s : EventStore)
      → (delete_expired d now s).windows ≡ delete_where (is_expired d now) s.windows
  unfolding delete_expired
  windows-delete_expired s =
      let n = count_where (is_expired d now) s.windows in
      let s' : EventStore = record s { windows = delete_where (is_expired d now) s.windows } in
      ground (arith, reduce-windows d n s')

  count-held :
      (o : Option WindowRow)
      → count_where (leb ((now - window) / millisecond)) (samples o (window / second)) ≡ held o
  unfolding samples
  count-held none = unfold count_where in refl
  count-held (some w) = elim (Bool-cases (w.window_seconds == window / second)) [
    | inl e ↦ rw e (count-young ((now - window) / millisecond) w.event_times)
    | inr e ↦ rw e (unfold count_where in refl)
  ]

  recent-samples :
      (s : EventStore)
      → count_where (leb ((now - window) / millisecond)) (
          samples
            (first_where (is_window d type source) (delete_expired d now s).windows)
            (window / second))
        ≡ recent s
  recent-samples s =
      count-held _
      ∙ ap held (
          ap (first_where (is_window d type source)) (windows-delete_expired s)
          ∙ first-standing s.windows)

  increment-returns :
      (s : EventStore) (r : RetentionState)
      → lookup d s.retention ≡ some r
      → (t : EventStore) × (n : ℕ) × (increment_security_event_window_tx payload d type source
            window occurred_at now s
          ≡ some (t, n))
  unfolding increment_security_event_window_tx
  increment-returns s r h =
      let (r', kept) = delete_expired-returns d now s r h in
      let (u, count, counts) =
        count_tx-returns d (is_none (old_row d type source window occurred_at now s))
          (written d type source window occurred_at now s) r' kept in
      (
        limit_windows (payload count) d type source now (u, count),
        length (new_samples d type source window occurred_at now s),
        ground (arith, counts),
      )

  -- Where the device has a retention row, a failure is counted. The result is one more than the
  -- samples, to the millisecond not before the window, that the stored row of the source holds, but
  -- at most 100; the row counts for nothing where it is of another length or where its end is not
  -- after now. And whatever the capacity evicts, the source keeps a row with this count.
  pub failures_counted :
      (s : EventStore) (r : RetentionState)
      → lookup d s.retention ≡ some r
      → (t : EventStore) × (w : WindowRow) × (increment_security_event_window_tx payload d type
            source window occurred_at now s
          ≡ some (t, w.event_count))
        × (w.event_count ≡ (if ltb (recent s) 100 then suc (recent s) else 100))
        × (w.last_seen_at ≡ now)
        × (first_where (is_window d type source) t.windows ≡ some w)
  failures_counted s r h =
      let (t, n, runs) = increment-returns s r h in
      let c = increment-Counted d type source window occurred_at now s payload t n runs in
      let w = new_row d type source window occurred_at now s in
      let u = c.counted_store in
      let (same_rows, _) =
        count_tx-rows d (is_none (old_row d type source window occurred_at now s))
          (written d type source window occurred_at now s) u c.count c.counts in
      let own : first_where (is_window d type source) t.windows ≡ some w =
        ap (λ x. first_where (is_window d type source) x.windows) c.limits
        ∙ first-limit_windows (payload c.count) d type source now c.count u
        ∙ ap (first_where (is_window d type source)) same_rows
        ∙ (unfold window_row in
            first-put_window w (cleaned d type source window occurred_at now s).windows) in
      let event_count : n ≡ w.event_count = unfold window_row in c.sampled in
      (
        t,
        w,
        runs ∙ ap (λ x. some (t, x)) event_count,
        unfold window_row in
            (length-kept_samples
                (samples (old_row d type source window occurred_at now s) (window / second))
                ((now - window) / millisecond) (occurred_at / millisecond)
              ∙ ap (λ n. if ltb n 100 then suc n else 100) (recent-samples s)),
        unfold window_row in refl,
        own,
      )
