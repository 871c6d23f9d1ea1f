-- ===== src/Outbox/Spared.antt =====
-- What an enqueued event leaves of the table: the rows that are leased (internal/store/notification_outbox.go).
use witshield.Events.Trim.{find-remove_times, remove_times, find-keep_first, keep_first}
use witshield.Actions.Statement.{first_where}
use witshield.Outbox.Rules.{enqueue_keeps}
use witshield.Outbox.Enqueue.{
  new_row, is_earlier, backlog, is_staler, NotificationSettings, is_terminal_of,
  enqueue_notification_tx, is_replaceable, NotificationEvent, dropped_row, Wire, insert_or_ignore,
  add_delivery, replace_reports, enqueue_channel, Keyed,
}
use witshield.Base.{
  inr, inl, Bool-cases, ◌+◌, ◌-◌, ◌==◌, len, not, ◌&&◌, leb, Option, false, ℕ, str_eq, true, eq_iff,
  Bool, String, ◌≡◌, some, [], ◌∷◌, ◌++◌, arith,
}
use witshield.Base.Dict.{lookup}
use witshield.Outbox.Leases.{is_terminal, is_pending, Channel, is_inflight, Row, Table}

lookup-append :
    (k id : String) (r s : Row) (table : Table)
    → lookup k table ≡ some s
    → lookup k (table ++ (id, r) ∷ []) ≡ some s
unfolding lookup
lookup-append k id r s [] h = ground (arith, h)
lookup-append k id r s ((other, t) ∷ table) h = ground (arith, h, lookup-append k id r s table)

is_key : String → Keyed → Bool
is_key k (id, r) = str_eq id k

lookup-find :
    (k : String) (table : Table) (r : Row)
    → lookup k table ≡ some r
    → first_where (is_key k) table ≡ some (k, r)
unfolding lookup first_where is_key
lookup-find k [] r h = ground (arith, h)
lookup-find k ((id, s) ∷ table) r h = ground (arith, h, eq_iff id k, lookup-find k table r)

find-lookup :
    (k : String) (table : Table) (r : Row)
    → first_where (is_key k) table ≡ some (k, r)
    → lookup k table ≡ some r
unfolding lookup first_where is_key
find-lookup k [] r h = ground (arith, h)
find-lookup k ((id, s) ∷ table) r h = ground (arith, h, find-lookup k table r)

-- A row that is leased stays, whatever is enqueued.
module _ (k : String) (r : Row) (leased : is_inflight r.status ≡ true) where
  abbrev Stays : Table → Type 0
  Stays table = lookup k table ≡ some r

  replace_reports-Stays :
      (w : Wire) (event : NotificationEvent) (channel : Channel) (table : Table)
      → Stays table
      → Stays (replace_reports w event channel table)
  unfolding replace_reports
  replace_reports-Stays w event channel table h =
      let p = is_replaceable w channel event.device_id in
      let spared : p (k, r) ≡ false =
        unfold is_replaceable in unfold is_pending in unfold is_inflight in ground arith in
      let full =
        leb 5000 (backlog channel table)
        && (str_eq event.type "report_completed" && not (len event.device_id == 0)) in
      let removed =
        find-lookup k (remove_times p (backlog channel table - 5000 + 1) is_earlier table) r (
          find-remove_times p (is_key k) (k, r) spared (backlog channel table - 5000 + 1) is_earlier
            table (lookup-find k table r h)) in
      elim (Bool-cases full) [ inl e ↦ ground (arith, e, removed) | inr e ↦ ground (arith, e, h) ]

  add_delivery-Stays :
      (id : String) (s : Row) (table : Table) → Stays table → Stays (add_delivery id s table).0
  unfolding add_delivery insert_or_ignore
  add_delivery-Stays id s table h =
      ground
        (arith, h, lookup-append k id s r table h, lookup-append k id (dropped_row s) r table h)

  enqueue_channel-Stays :
      (w : Wire) (event : NotificationEvent) (id : String) (s : Row) (table : Table)
      → Stays table
      → Stays (enqueue_channel w event id s table).0
  unfolding enqueue_channel
  enqueue_channel-Stays w event id s table h =
      let p = is_terminal_of s.channel in
      let spared : p (k, r) ≡ false =
        unfold is_terminal_of in unfold is_terminal in unfold is_inflight in ground arith in
      let kept = keep_first p 10000 is_staler table in
      add_delivery-Stays id s (replace_reports w event s.channel kept) (
        replace_reports-Stays w event s.channel kept (
          find-lookup k kept r (
            find-keep_first p (is_key k) (k, r) spared 10000 is_staler table
              (lookup-find k table r h))))

  pub enqueue-Stays :
      (w : Wire) (event : NotificationEvent) (settings : Option NotificationSettings)
      (webhook_id smtp_id : String) (webhook_first : Bool) (now : ℕ) (table : Table)
      → Stays table
      → Stays
          (enqueue_notification_tx w event settings webhook_id smtp_id webhook_first now table).0
  enqueue-Stays = enqueue_keeps Stays (λ w event id channel payload version now table h.
      enqueue_channel-Stays w event id (new_row event channel payload version now) table h)
