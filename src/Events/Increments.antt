-- ===== src/Events/Increments.antt =====
-- The two parts of `incrementSecurityEventWindowTx`: the row of the source, then the count and the capacity.
use witshield.Base.{
  List, ℕ, ◌-◌, ◌/◌, String, ◌≡◌, inl, inr, Option, some, Option-cases, arith, length,
}
use witshield.Actions.Statement.{first_where, is_none}
use witshield.Defense.Correlator.{second}
use witshield.Events.Rows.{WindowRow, EventStore, millisecond, is_window}
use witshield.Events.Windows.{
  delete_expired, samples, kept_samples, window_row, put_window, security_event_window_count_tx,
  limit_windows, increment_security_event_window_tx,
}

module _ (device_id type source : String) (window occurred_at now : ℕ) (s : EventStore) where
  abbrev pub cleaned : EventStore
  cleaned = delete_expired device_id now s

  abbrev pub old_row : Option WindowRow
  old_row = first_where (is_window device_id type source) cleaned.windows

  abbrev pub new_samples : List ℕ
  new_samples =
      kept_samples (samples old_row (window / second)) ((now - window) / millisecond)
        (occurred_at / millisecond)

  abbrev pub new_row : WindowRow
  new_row = window_row device_id type source window new_samples occurred_at now

  abbrev pub written : EventStore
  written = record cleaned { windows = put_window old_row new_row cleaned.windows }

  pub record Counted (payload : ℕ → String) (t : EventStore) (n : ℕ) : Type 0 where
    pub counted_store : EventStore
    pub count : ℕ
    pub counts :
        security_event_window_count_tx device_id (is_none old_row) written
        ≡ some (counted_store, count)
    pub limits : t ≡ limit_windows (payload count) device_id type source now (counted_store, count)
    pub sampled : n ≡ length new_samples

  pub increment-Counted :
      (payload : ℕ → String) (t : EventStore) (n : ℕ)
      → increment_security_event_window_tx payload device_id type source window occurred_at now s
        ≡ some (t, n)
      → Counted payload t n
  unfolding increment_security_event_window_tx
  increment-Counted payload t n h =
      elim (Option-cases (security_event_window_count_tx device_id (is_none old_row) written)) [
        | inl e ↦ ground (arith, e, h)
        | inr ((u, c), e) ↦ record {
          counted_store = u;
          count = c;
          counts = e;
          limits = ground (arith, e, h);
          sampled = ground (arith, e, h);
        }
      ]
