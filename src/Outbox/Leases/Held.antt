-- ===== src/Outbox/Leases/Held.antt =====
-- What keeps the row of a lease as it is (internal/store/notification_outbox.go).
use witshield.Base.{
  ℕ, ◌+◌, ◌<◌, String, ◌≡◌, sym, ap, ◌∙◌, ◌⊎◌, inl, inr, Bool, true, false, ◌&&◌, Option, none,
  some, List, [], ◌∷◌, All, str_eq, eq_iff, Bool-cases, Option-cases, arith,
}
use witshield.Base.Dict.{lookup, lookup-insert}
use witshield.Outbox.Spared.{enqueue-Stays}
use witshield.Outbox.Enqueue.{
  Wire, NotificationEvent, NotificationSettings, enqueue_notification_tx,
}
use witshield.Outbox.Leases.{
  Channel, Row, Table, NotificationDelivery, is_channel, is_valid_channel, is_pending, is_inflight,
  is_terminal, lease_over, is_due, first_row, update_row, leased, claim, is_time, holds, end_lease,
  completed, complete, cancel, release, update_all, withdrawn, cancel_pending, prune,
}

-- The row of the delivery is leased under its token.
unfoldable pub held : NotificationDelivery → Table → Bool
held d table = elim (lookup d.id table) [ none ↦ false | some r ↦ holds d r ]

held_by :
    (d : NotificationDelivery) (table table' : Table)
    → lookup d.id table' ≡ lookup d.id table
    → held d table ≡ true
    → held d table' ≡ true
unfolding held
held_by d table table' e h = ground arith

-- While the lease runs, its row is not due.
pub holds-is_due :
    (d : NotificationDelivery) (now : ℕ) (r : Row)
    → now < d.lease_until
    → holds d r ≡ true
    → is_due now r ≡ false
unfolding holds is_due is_time lease_over is_inflight is_pending
holds-is_due d now r before h = ground arith

-- Two deliveries that hold one row have one token.
pub holds_both :
    (d e : NotificationDelivery) (r : Row)
    → holds d r ≡ true
    → holds e r ≡ true
    → (e.attempts ≡ d.attempts) × (e.lease_until ≡ d.lease_until)
unfolding holds is_time
holds_both d e r h k = ground arith

-- An update of a row either leaves the row of a delivery alone or has met its condition.
lookup-update_row :
    (id k : String) (w : Row → Bool) (f : Row → Row) (table : Table)
    → (lookup k (update_row id w f table).0 ≡ lookup k table)
      ⊎ ((id ≡ k) × (r : Row) × (lookup k table ≡ some r) × (w r ≡ true))
unfolding update_row
lookup-update_row id k w f table = elim (Option-cases (lookup id table)) [
  | inl e ↦ inl (ground arith)
  | inr (r, e) ↦ elim (Bool-cases (w r)) [
    | inr x ↦ inl (ground arith)
    | inl x ↦ elim (Bool-cases (str_eq id k)) [
      | inr other ↦ inl (ground (arith, lookup-insert id k (f r) table))
      | inl here ↦
          inr
            ((eq_iff id k).0 here, r, ap (λ y. lookup y table) (sym ((eq_iff id k).0 here)) ∙ e, x)
    ]
  ]
]

pub held-row :
    (d : NotificationDelivery) (table : Table) {r : Row}
    → held d table ≡ true
    → lookup d.id table ≡ some r
    → holds d r ≡ true
unfolding held
held-row d table h e = ground arith

update_row-held :
    (d : NotificationDelivery) (id : String) (w : Row → Bool) (f : Row → Row) (table : Table)
    → ((r : Row) → id ≡ d.id → holds d r ≡ true → w r ≡ true → ⊥)
    → held d table ≡ true
    → held d (update_row id w f table).0 ≡ true
update_row-held d id w f table no_match h = elim (lookup-update_row id d.id w f table) [
  | inl e ↦ held_by d table (update_row id w f table).0 e h
  | inr (here, r, e, x) ↦ absurd (no_match r here (held-row d table h e) x)
]

claim-held :
    (d : NotificationDelivery) (channel : Channel) (now lease : ℕ) (table : Table)
    → now < d.lease_until
    → held d table ≡ true
    → held d (claim channel now lease table).0 ≡ true
unfolding claim
claim-held d channel now lease table before h =
    elim (Option-cases (first_row (λ r. is_channel channel r.channel && is_due now r) table)) [
      | inl e ↦ ground arith
      | inr ((id, r), e) ↦
          let kept =
            update_row-held d id (is_due now) (leased now (now + lease)) table
              (λ r here k x. ground (arith, holds-is_due d now r before k)) h in
          ground arith
    ]

end_lease-held :
    (d e : NotificationDelivery) (f : Row → Row) (table : Table)
    → (e.id ≡ d.id → e.attempts ≡ d.attempts → e.lease_until ≡ d.lease_until → ⊥)
    → held d table ≡ true
    → held d (end_lease e f table).0 ≡ true
unfolding end_lease
end_lease-held d e f table other h =
    let kept =
      update_row-held d e.id (holds e) f table
        (λ r here k x. let (a, b) = holds_both d e r k x in other here a b) h in
    ground arith

lookup-update_all :
    (w : Row → Bool) (f : Row → Row) (k : String) (table : Table) {r : Row}
    → lookup k table ≡ some r
    → w r ≡ false
    → lookup k (update_all w f table) ≡ some r
unfolding update_all lookup
lookup-update_all w f k [] h n = absurd (ground arith)
lookup-update_all w f k ((id, s) ∷ rest) {r} h n = elim (Bool-cases (str_eq id k)) [
  | inl here ↦ let same : s ≡ r = ground arith in ground arith
  | inr other ↦
      let found : lookup k rest ≡ some r = ground arith in
      let kept = lookup-update_all w f k rest found n in ground arith
]

lookup-prune :
    (before : ℕ) (k : String) (table : Table) {r : Row}
    → lookup k table ≡ some r
    → is_terminal r.status ≡ false
    → lookup k (prune before table) ≡ some r
unfolding prune lookup
lookup-prune before k [] h n = absurd (ground arith)
lookup-prune before k ((id, s) ∷ rest) {r} h n = elim (Bool-cases (str_eq id k)) [
  | inl here ↦ let same : s ≡ r = ground arith in ground arith
  | inr other ↦
      let found : lookup k rest ≡ some r = ground arith in
      let kept = lookup-prune before k rest found n in ground arith
]

pub row-of_held :
    (d : NotificationDelivery) (table : Table)
    → held d table ≡ true
    → (r : Row) × (lookup d.id table ≡ some r) × (holds d r ≡ true)
unfolding held
row-of_held d table h = elim (Option-cases (lookup d.id table)) [
  | inl e ↦ absurd (ground arith)
  | inr (r, e) ↦ (r, e, ground arith)
]

update_all-held :
    (d : NotificationDelivery) (w : Row → Bool) (f : Row → Row) (table : Table)
    → ((r : Row) → holds d r ≡ true → w r ≡ false)
    → held d table ≡ true
    → held d (update_all w f table) ≡ true
update_all-held d w f table spared h =
    let (r, e, k) = row-of_held d table h in
    held_by d table (update_all w f table) (lookup-update_all w f d.id table e (spared r k) ∙ sym e)
      h

holds-live :
    (d : NotificationDelivery) (r : Row)
    → holds d r ≡ true
    → (is_pending r.status ≡ false) × (is_terminal r.status ≡ false)
unfolding holds is_inflight is_pending is_terminal
holds-live d r h = ground arith

-- What the other workers, the administrator and the housekeeping do to the table.
pub data Step : Type 0 where
  claims : Channel → ℕ → ℕ → Step
  completes : NotificationDelivery → Bool → ℕ → ℕ → ℕ → String → Step
  cancels : NotificationDelivery → String → ℕ → Step
  releases : NotificationDelivery → ℕ → Step
  cancels_channel : Channel → String → ℕ → Step
  prunes : ℕ → Step
  enqueues :
      Wire → NotificationEvent → Option NotificationSettings → String → String → Bool → ℕ → Step

unfoldable pub step : Step → Table → Table
step (claims channel now lease) table = (claim channel now lease table).0
step (completes d delivered retry_at now max_attempts last_error) table =
    (complete d delivered retry_at now max_attempts last_error table).0
step (cancels d reason now) table = (cancel d reason now table).0
step (releases d now) table = (release d now table).0
step (cancels_channel channel reason now) table = (cancel_pending channel reason now table).0
step (prunes before) table = prune before table
step (enqueues w event settings webhook_id smtp_id webhook_first now) table =
    (enqueue_notification_tx w event settings webhook_id smtp_id webhook_first now table).0

unfoldable pub steps : List Step → Table → Table
steps [] table = table
steps (s ∷ rest) table = steps rest (step s table)

-- Another token than that of `d`.
abbrev pub OtherToken : NotificationDelivery → NotificationDelivery → Type 0
OtherToken d e = e.id ≡ d.id → e.attempts ≡ d.attempts → e.lease_until ≡ d.lease_until → ⊥

-- A step of somebody else while the lease of `d` runs.
abbrev pub Foreign : NotificationDelivery → Step → Type 0
Foreign d (claims channel now lease) = now < d.lease_until
Foreign d (completes e delivered retry_at now max_attempts last_error) = OtherToken d e
Foreign d (cancels e reason now) = OtherToken d e
Foreign d (releases e now) = OtherToken d e
Foreign d (cancels_channel channel reason now) = Unit
Foreign d (prunes before) = Unit
Foreign d (enqueues w event settings webhook_id smtp_id webhook_first now) = Unit

step-held :
    (d : NotificationDelivery) (s : Step) (table : Table)
    → Foreign d s
    → held d table ≡ true
    → held d (step s table) ≡ true
unfolding step complete cancel release cancel_pending
step-held d (claims channel now lease) table f h = claim-held d channel now lease table f h
step-held d (completes e delivered retry_at now max_attempts last_error) table f h =
    let kept =
      end_lease-held d e (completed e delivered retry_at now max_attempts last_error) table f h in
    ground arith
step-held d (cancels e reason now) table f h = end_lease-held d e _ table f h
step-held d (releases e now) table f h = end_lease-held d e _ table f h
step-held d (cancels_channel channel reason now) table f h =
    elim (Bool-cases (is_valid_channel channel)) [
      | inl e ↦
          let kept =
            update_all-held d (λ r. is_channel channel r.channel && is_pending r.status)
              (withdrawn reason now) table (λ r k. ground (arith, holds-live d r k)) h in
          ground arith
      | inr e ↦ ground arith
    ]
step-held d (prunes before) table f h =
    let (r, e, k) = row-of_held d table h in
    held_by d table (prune before table)
      (lookup-prune before d.id table e (holds-live d r k).1 ∙ sym e) h
step-held d (enqueues w event settings webhook_id smtp_id webhook_first now) table f h =
    let (r, e, k) = row-of_held d table h in
    let leased : is_inflight r.status ≡ true = unfold holds in ground arith in
    held_by d table
      (enqueue_notification_tx w event settings webhook_id smtp_id webhook_first now table).0
      (enqueue-Stays d.id r leased w event settings webhook_id smtp_id webhook_first now table e
        ∙ sym e)
      h

pub steps-held :
    (d : NotificationDelivery) (ss : List Step) (table : Table)
    → All (Foreign d) ss
    → held d table ≡ true
    → held d (steps ss table) ≡ true
unfolding steps
steps-held d [] table f h = h
steps-held d (s ∷ ss) table (f, fs) h = steps-held d ss (step s table) fs (step-held d s table f h)
