-- ===== src/Outbox/Rules.antt =====
-- What each round of an enqueued event keeps, the whole call keeps.
use witshield.Base.{
  ℕ, String, inl, inr, Bool, true, false, Option, none, some, Option-cases, Bool-cases, arith, ltb,
  len, ◌==◌, ◌*◌,
}
use mathlib.Core.Path.{subst}
use witshield.Outbox.Leases.{Channel, webhook, smtp, Table}
use witshield.Outbox.Enqueue.{
  Wire, NotificationEvent, NotificationSettings, new_row, enqueue_channel, enqueue_enabled,
  enqueue_both, enqueue_valid, enqueue_notification_tx,
}

abbrev pub KeptByRounds : (Table → Type 0) → Type 0
KeptByRounds P =
    (w : Wire) (event : NotificationEvent) (id : String) (channel : Channel) (payload : String)
    (version now : ℕ) (table : Table)
    → P table
    → P (enqueue_channel w event id (new_row event channel payload version now) table).0

module _ (P : Table → Type 0) (keeps : KeptByRounds P) where
  enabled_keeps :
      (w : Wire) (event : NotificationEvent) (enabled : Bool) (id : String) (channel : Channel)
      (payload : String) (version now : ℕ) (x : Table × ℕ)
      → P x.0
      → P (enqueue_enabled w event enabled id (new_row event channel payload version now) x).0
  unfolding enqueue_enabled
  enabled_keeps w event true id channel payload version now (table, n) h =
      keeps w event id channel payload version now table h
  enabled_keeps w event false id channel payload version now (table, n) h = h

  both_keep :
      (w : Wire) (event : NotificationEvent) (payload : String) (settings : NotificationSettings)
      (webhook_id smtp_id : String) (webhook_first : Bool) (now : ℕ) (table : Table)
      → P table
      → P (enqueue_both w event payload settings webhook_id smtp_id webhook_first now table).0
  unfolding enqueue_both
  both_keep w event payload settings webhook_id smtp_id true now table h =
      let v = settings.updated_at in
      let first =
        enqueue_enabled w event settings.webhook_enabled webhook_id
          (new_row event webhook payload v now) (table, 0) in
      enabled_keeps w event settings.smtp_enabled smtp_id smtp payload v now first (
        enabled_keeps w event settings.webhook_enabled webhook_id webhook payload v now (table, 0)
          h)
  both_keep w event payload settings webhook_id smtp_id false now table h =
      let v = settings.updated_at in
      let first =
        enqueue_enabled w event settings.smtp_enabled smtp_id (new_row event smtp payload v now)
          (table, 0) in
      enabled_keeps w event settings.webhook_enabled webhook_id webhook payload v now first
        (enabled_keeps w event settings.smtp_enabled smtp_id smtp payload v now (table, 0) h)

  valid_keeps :
      (w : Wire) (event : NotificationEvent) (payload : String)
      (settings : Option NotificationSettings) (webhook_id smtp_id : String) (webhook_first : Bool)
      (now : ℕ) (table : Table)
      → P table
      → P (enqueue_valid w event payload settings webhook_id smtp_id webhook_first now table).0
  unfolding enqueue_valid
  valid_keeps w event payload none webhook_id smtp_id webhook_first now table h = h
  valid_keeps w event payload (some settings) webhook_id smtp_id webhook_first now table h =
      both_keep w event payload settings webhook_id smtp_id webhook_first now table h

  pub enqueue_keeps :
      (w : Wire) (event : NotificationEvent) (settings : Option NotificationSettings)
      (webhook_id smtp_id : String) (webhook_first : Bool) (now : ℕ) (table : Table)
      → P table
      → P (enqueue_notification_tx w event settings webhook_id smtp_id webhook_first now table).0
  unfolding enqueue_notification_tx
  enqueue_keeps w event settings webhook_id smtp_id webhook_first now table h =
      elim (Bool-cases (len (w.trim_space event.id) == 0)) [
        | inl e ↦ subst P (ground (arith, e)) h
        | inr e ↦ elim (Option-cases (w.marshal event)) [
          | inl m ↦ subst P (ground (arith, e, m)) h
          | inr (payload, m) ↦ elim (Bool-cases (ltb (16 * 1024) (len payload))) [
            | inl l ↦ subst P (ground (arith, e, m, l)) h
            | inr l ↦
                subst P (ground (arith, e, m, l)) (
                  valid_keeps w event payload settings webhook_id smtp_id webhook_first now table h)
          ]
        ]
      ]
