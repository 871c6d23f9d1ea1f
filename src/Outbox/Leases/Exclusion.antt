-- ===== src/Outbox/Leases/Exclusion.antt =====
-- That a lease of the notification outbox is its worker's alone until it ends
-- (internal/store/notification_outbox.go).
use witshield.Base.{
  ℕ, ◌+◌, ◌≤◌, ◌<◌, String, ◌≡◌, ◌≢◌, sym, ap, ◌∙◌, ◌⊎◌, inl, inr, Bool, true, false, not, ◌&&◌,
  some, List, [], ◌∷◌, All, eq_iff, Bool-cases, Option-cases, arith,
}
use witshield.Base.Dict.{lookup, insert, Distinct, lookup-insert}
use witshield.Outbox.Leases.{
  Channel, Row, Table, NotificationDelivery, done, conflict, is_channel, is_inflight, is_due,
  first_row, earlier, comes_before, update_row, leased, claim, is_time, holds, end_lease, completed,
  complete,
}
use witshield.Outbox.Leases.Held.{
  held, holds-is_due, holds_both, held-row, row-of_held, Step, steps, OtherToken, Foreign,
  steps-held,
}

-- What a claim has done that succeeds.
pub record Claimed (channel : Channel) (now lease : ℕ) (table : Table) (e : NotificationDelivery)
    : Type 0 where
  pub id : String
  pub seen : Row
  pub row : Row
  pub chosen : first_row (λ r. is_channel channel r.channel && is_due now r) table ≡ some (id, seen)
  pub stored : lookup id table ≡ some row
  pub due : is_due now row ≡ true
  pub named : id ≡ e.id
  pub counted : e.attempts ≡ seen.attempts + 1
  pub until : e.lease_until ≡ now + lease
  pub written : insert id (leased now (now + lease) row) table ≡ (claim channel now lease table).0

pub claim-Claimed :
    (channel : Channel) (now lease : ℕ) (table : Table) {e : NotificationDelivery}
    → (claim channel now lease table).1 ≡ done e
    → Claimed channel now lease table e
unfolding claim update_row
claim-Claimed channel now lease table {e} h =
    elim (Option-cases (first_row (λ r. is_channel channel r.channel && is_due now r) table)) [
      | inl none_due ↦ absurd (ground arith)
      | inr ((id, seen), chosen) ↦ elim (Option-cases (lookup id table)) [
        | inl missing ↦ absurd (ground arith)
        | inr (row, stored) ↦ elim (Bool-cases (is_due now row)) [
          | inr late ↦ absurd (ground arith)
          | inl due ↦ record {
            id = id;
            seen = seen;
            row = row;
            chosen = chosen;
            stored = stored;
            due = due;
            named = ground arith;
            counted = ground arith;
            until = ground arith;
            written = ground arith;
          }
        ]
      ]
    ]

end_lease-done :
    (d : NotificationDelivery) (f : Row → Row) (table : Table)
    → held d table ≡ true
    → (end_lease d f table).1 ≡ done tt
unfolding end_lease held update_row
end_lease-done d f table h = ground arith

complete-done :
    (d : NotificationDelivery) (delivered : Bool) (retry_at now max_attempts : ℕ)
    (last_error : String) (table : Table)
    → 1 ≤ max_attempts
    → held d table ≡ true
    → (complete d delivered retry_at now max_attempts last_error table).1 ≡ done tt
unfolding complete
complete-done d delivered retry_at now max_attempts last_error table some_attempts h =
    let finished =
      end_lease-done d (completed d delivered retry_at now max_attempts last_error) table h in
    ground arith

-- A claim of a row that is held before its lease is over names another row.
claim-other :
    (d : NotificationDelivery) (channel : Channel) (now lease : ℕ) (table : Table)
    {e : NotificationDelivery}
    → now < d.lease_until
    → held d table ≡ true
    → (claim channel now lease table).1 ≡ done e
    → e.id ≢ d.id
claim-other d channel now lease table {e} before h k same =
    let c = claim-Claimed channel now lease table k in
    let here : lookup d.id table ≡ some c.row =
      ap (λ x. lookup x table) (sym (c.named ∙ same)) ∙ c.stored in
    true≢false (sym c.due ∙ holds-is_due d now c.row before (held-row d table h here))
  where
    true≢false : true ≡ false → ⊥
    true≢false x = ground arith

first_row-cases :
    (w : Row → Bool) (k : String) (s : Row) (rest : Table) {id : String} {r : Row}
    → first_row w ((k, s) ∷ rest) ≡ some (id, r)
    → ((k ≡ id) × (s ≡ r)) ⊎ (first_row w rest ≡ some (id, r))
unfolding first_row earlier
first_row-cases w k s rest {id} {r} h = elim (Option-cases (first_row w rest)) [
  | inl e ↦ inl (ground arith, ground arith)
  | inr ((a, t), e) ↦ elim (Bool-cases (w s && not (comes_before (a, t) (k, s)))) [
    | inl x ↦ inl (ground arith, ground arith)
    | inr x ↦ inr (ground arith)
  ]
]

pub first_row-true :
    (w : Row → Bool) (table : Table) {id : String} {r : Row}
    → first_row w table ≡ some (id, r)
    → w r ≡ true
unfolding first_row earlier
first_row-true w [] h = absurd (ground arith)
first_row-true w ((k, s) ∷ rest) {id} {r} h = elim (Option-cases (first_row w rest)) [
  | inl e ↦ ground (arith, h, e)
  | inr ((a, t), e) ↦
      let below = first_row-true w rest e in
      elim (Bool-cases (w s && not (comes_before (a, t) (k, s)))) [
        | inl x ↦ ground (arith, h, e, x)
        | inr x ↦ ground (arith, h, e, x, below)
      ]
]

-- The first row is one of the table.
pub first_row-stored :
    (w : Row → Bool) (table : Table) {id : String} {r : Row}
    → Distinct table
    → first_row w table ≡ some (id, r)
    → lookup id table ≡ some r
unfolding first_row earlier lookup
first_row-stored w [] d h = absurd (ground arith)
first_row-stored w ((k, s) ∷ rest) {id} {r} d h = elim (first_row-cases w k s rest h) [
  | inl (same, e) ↦ ground (arith, eq_iff k id)
  | inr e ↦
      let found = first_row-stored w rest d.1 e in let new = d.0 in ground (arith, eq_iff k id)
]

-- A claim holds its row.
claim-holds :
    (channel : Channel) (now lease : ℕ) (table : Table) {d : NotificationDelivery}
    → Distinct table
    → (claim channel now lease table).1 ≡ done d
    → held d (claim channel now lease table).0 ≡ true
unfolding held holds is_time is_inflight
claim-holds channel now lease table {d} distinct h =
    let c = claim-Claimed channel now lease table h in
    let same : some c.row ≡ some c.seen =
      sym c.stored ∙ first_row-stored _ table distinct c.chosen in
    let found : lookup c.id (insert c.id (leased now (now + lease) c.row) table)
        ≡ some (leased now (now + lease) c.row) =
      ground
        (arith, lookup-insert c.id c.id (leased now (now + lease) c.row) table, eq_iff c.id c.id) in
    ground (arith, c.named, c.counted, c.until, c.written, same, found)

-- After a claim, while its lease runs, and whatever the other workers do with other tokens, the
-- administrator and the housekeeping, the worker's own completion succeeds, and no claim gives its row to
-- somebody else.
pub lease_exclusive :
    (channel : Channel) (now lease : ℕ) (table : Table) (d : NotificationDelivery) (ss : List Step)
    → Distinct table
    → (claim channel now lease table).1 ≡ done d
    → All (Foreign d) ss
    → let later = steps ss (claim channel now lease table).0 in
      ((delivered : Bool) (retry_at at max_attempts : ℕ) (last_error : String)
        → 1 ≤ max_attempts
        → (complete d delivered retry_at at max_attempts last_error later).1 ≡ done tt)
      × ((channel' : Channel) (at lease' : ℕ) (e : NotificationDelivery)
          → at < d.lease_until
          → (claim channel' at lease' later).1 ≡ done e
          → e.id ≢ d.id)
lease_exclusive channel now lease table d ss distinct h foreign =
    let later : Table = steps ss (claim channel now lease table).0 in
    let h' : held d later ≡ true =
      steps-held d ss (claim channel now lease table).0 foreign
        (claim-holds channel now lease table distinct h) in
    (
      λ delivered retry_at at max_attempts last_error positive.
          complete-done d delivered retry_at at max_attempts last_error later positive h',
      λ channel' at lease' e before k. claim-other d channel' at lease' later before h' k,
    )

refused_by :
    (d : NotificationDelivery) (f : Row → Row) (table : Table) (r : Row)
    → lookup d.id table ≡ some r
    → holds d r ≡ false
    → end_lease d f table ≡ (table, conflict)
unfolding end_lease update_row
refused_by d f table r e n = ground arith

-- After a claim, while its row is leased and whatever happens that is foreign to it, the completion of an
-- earlier worker of the same row, whose token is another, is refused as a conflict and changes nothing.
pub late_completion_refused :
    (channel : Channel) (now lease : ℕ) (table : Table) (d late : NotificationDelivery)
    (ss : List Step)
    → Distinct table
    → (claim channel now lease table).1 ≡ done d
    → All (Foreign d) ss
    → late.id ≡ d.id
    → OtherToken d late
    → (delivered : Bool) (retry_at at max_attempts : ℕ) (last_error : String) → 1 ≤ max_attempts
    → let later = steps ss (claim channel now lease table).0 in
      complete late delivered retry_at at max_attempts last_error later ≡ (later, conflict)
unfolding complete
late_completion_refused channel now lease table d late ss distinct h foreign same other delivered
      retry_at at max_attempts last_error positive =
    let later : Table = steps ss (claim channel now lease table).0 in
    let h' : held d later ≡ true =
      steps-held d ss (claim channel now lease table).0 foreign
        (claim-holds channel now lease table distinct h) in
    let (r, e, k) = row-of_held d later h' in
    let found : lookup late.id later ≡ some r = ap (λ x. lookup x later) same ∙ e in
    elim (Bool-cases (holds late r)) [
      | inl both ↦ let (a, b) = holds_both d late r k both in absurd (other same a b)
      | inr no_hold ↦
          let refusal =
            refused_by late (completed late delivered retry_at at max_attempts last_error) later r
              found no_hold in
          ground arith
    ]
