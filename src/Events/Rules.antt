-- ===== src/Events/Rules.antt =====
-- What the inserted events, the counted failures and the deletions keep, all the calls keep.
use mathlib.Core.Path.{subst}
use witshield.Base.{
  ℕ, String, ◌&&◌, ◌≡◌, inl, inr, Option, some, List, [], ◌∷◌, Bool-cases, Option-cases, arith,
}
use witshield.Events.Rows.{SecurityEvent, EventStore}
use witshield.Events.Retention.{insert_event, add_security_event, completed}
use witshield.Events.Windows.{increment_security_event_window_tx}
use witshield.Events.Calls.{
  EventCall, add, process, clean, event_call, event_calls, maintain, or_unchanged,
  process_security_event, count_failure, normalized, is_counted,
}

pub record KeptByEvents (P : EventStore → Type 0) : Type 0 where
  pub inserted : (e : SecurityEvent) (s : EventStore) → P s → P (insert_event e s).0
  pub counted :
      (payload : ℕ → String) (d type source : String) (window occurred_at now : ℕ)
      → (s t : EventStore) (n : ℕ)
      → increment_security_event_window_tx payload d type source window occurred_at now s
        ≡ some (t, n)
      → P s
      → P t
  pub maintained : (now : ℕ) (s : EventStore) → P s → P (maintain now s)

module _ (P : EventStore → Type 0) (keeps : KeptByEvents P) where
  count_failure_keeps :
      (payload : ℕ → String) (e : SecurityEvent) (window now : ℕ) (s t : EventStore)
      → P s
      → P t
      → P (count_failure payload e window now s t)
  unfolding count_failure or_unchanged
  count_failure_keeps payload e window now s t k k' =
      let run =
        increment_security_event_window_tx payload e.device_id e.type e.source_ip window
          e.occurred_at now t in
      elim (Option-cases run) [
        | inl h ↦ subst P (ground (arith, h)) k
        | inr ((u, n), h) ↦
            let kept =
              keeps.counted payload e.device_id e.type e.source_ip window e.occurred_at now t u n h
                k' in
            subst P (ground (arith, h)) kept
      ]

  process_keeps :
      (payload : ℕ → String) (event : SecurityEvent) (source : Option String) (window now : ℕ)
      → (s : EventStore) → P s
      → P (process_security_event payload event source window now s)
  unfolding process_security_event
  process_keeps payload event source window now s k =
      let e = normalized event source in
      let t = (insert_event e s).0 in
      let kept = keeps.inserted e s k in
      let both = (insert_event e s).1 && is_counted e source window now in
      elim (Bool-cases both) [
        | inl h ↦ subst P (ground (arith, h)) (count_failure_keeps payload e window now s t k kept)
        | inr h ↦ subst P (ground (arith, h)) kept
      ]

  event_call_keeps : (c : EventCall) (s : EventStore) → P s → P (event_call c s)
  unfolding event_call add_security_event
  event_call_keeps (add event fresh) s k = keeps.inserted (completed event fresh) s k
  event_call_keeps (process payload event source window now) s k =
      process_keeps payload event source window now s k
  event_call_keeps (clean now) s k = keeps.maintained now s k

  pub event_calls_keep : (calls : List EventCall) (s : EventStore) → P s → P (event_calls calls s)
  unfolding event_calls
  event_calls_keep [] s k = k
  event_calls_keep (c ∷ calls) s k =
      event_calls_keep calls (event_call c s) (event_call_keeps c s k)
