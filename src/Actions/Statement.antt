-- ===== src/Actions/Statement.antt =====
-- Transactions of internal/store: a chain of statements on the tables, which takes effect as a whole
-- where no statement fails and leaves the tables alone where one does.
pub mod Rules
pub mod Find
use witshield.Base.{
  ℕ, ◌+◌, String, Bool, true, false, Option, none, some, List, [], ◌∷◌, ◌++◌, ◌&&◌, str_eq,
  if◌then◌else◌,
}
use witshield.Base.Dict.{lookup}
use witshield.Actions.Tables.{AuditRow, Tables, ActionRow, CommandRow, DeviceCommand, BanRow}

-- The errors of the package, a violated constraint, a missing row, and errors made from a text.
pub data Fault : Type 0 where
  not_found conflict policy_stopped ban_already_live ban_rate_limited : Fault
  constraint no_rows : Fault
  invalid : String → Fault

pub data Outcome (A : Type 0) : Type 0 where
  done : A → Tables → Outcome A
  fault : Fault → Outcome A

abbrev pub Tx : Type 0 → Type 0
Tx A = Tables → Outcome A

module _ {A : Type 0} where
  unfoldable pub pure : A → Tx A
  pure a s = done a s

  unfoldable pub fail : Fault → Tx A
  fail e s = fault e

-- What the transaction sees so far.
unfoldable pub read : Tx Tables
read s = done s s

-- One statement that writes.
unfoldable pub change : (Tables → Tables) → Tx (Unit {0})
change g s = done tt (g s)

-- The same under a constraint on the tables.
unfoldable pub constrained : (Tables → Bool) → Fault → (Tables → Tables) → Tx (Unit {0})
constrained b e g s = if b s then done tt (g s) else fault e

module _ {A B : Type 0} where
  abbrev pub continue : Outcome A → (A → Tx B) → Outcome B
  continue (done a s) f = f a s
  continue (fault e) f = fault e

  infixl 5 ◌>>=◌
  unfoldable pub ◌>>=◌ : Tx A → (A → Tx B) → Tx B
  ◌>>=◌ m f s = continue (m s) f

  infixl 5 ◌>>◌
  abbrev pub ◌>>◌ : Tx A → Tx B → Tx B
  m >> n = m >>= λ _. n

unfoldable pub require : Bool → Fault → Tx (Unit {0})
require b e = if b then pure tt else fail e

-- COMMIT of an outcome, or ROLLBACK to the tables before.
unfoldable pub settle : {A : Type 0} → Tables → Outcome A → Tables × Outcome A
settle s (done a s') = (s', done a s')
settle s (fault e) = (s, fault e)

-- BEGIN, the statements, and their end.
unfoldable pub transact : {A : Type 0} → Tx A → Tables → Tables × Outcome A
unfolding settle
transact m s = settle s (m s)

module _ {ℓ} {A : Type ℓ} where
  -- SELECT … WHERE of one row
  unfoldable pub first_where : (A → Bool) → List A → Option A
  first_where p [] = none
  first_where p (x ∷ xs) = if p x then some x else first_where p xs

  -- SELECT count(*) … WHERE
  unfoldable pub count_where : (A → Bool) → List A → ℕ
  count_where p [] = 0
  count_where p (x ∷ xs) = (if p x then 1 else 0) + count_where p xs

  -- UPDATE … SET … WHERE
  unfoldable pub update_where : (A → Bool) → (A → A) → List A → List A
  update_where p f [] = []
  update_where p f (x ∷ xs) = (if p x then f x else x) ∷ update_where p f xs

unfoldable pub find_action : String → List ActionRow → Option ActionRow
unfolding first_where
find_action id = first_where (λ r. str_eq r.id id)

unfoldable pub find_command : String → List CommandRow → Option CommandRow
unfolding first_where
find_command id = first_where (λ r. str_eq r.id id)

unfoldable pub find_ban : String → List BanRow → Option BanRow
unfolding first_where
find_ban id = first_where (λ r. str_eq r.id id)

abbrev pub is_none {ℓ} : {A : Type ℓ} → Option A → Bool
is_none none = true
is_none (some _) = false

abbrev pub is_some {ℓ} : {A : Type ℓ} → Option A → Bool
is_some none = false
is_some (some _) = true

-- The device of a row must exist, and its primary key must be new.
unfoldable pub insert_action : ActionRow → Tx (Unit {0})
unfolding constrained
insert_action r =
    constrained
      (λ s. is_some (lookup r.device_id s.devices) && is_none (find_action r.id s.actions)) conflict
      (λ s. record s { actions = s.actions ++ r ∷ [] })

unfoldable pub queued : DeviceCommand → CommandRow
queued c = record {
  id = c.id;
  device_id = c.device_id;
  type = c.type;
  payload = c.payload;
  created_at = c.created_at;
  claimed_at = none;
  started_at = none;
  completed_at = none;
  result = "";
  error = "";
}

unfoldable pub insert_command : DeviceCommand → Tx (Unit {0})
unfolding constrained
insert_command c =
    constrained
      (λ s. is_some (lookup c.device_id s.devices) && is_none (find_command c.id s.commands))
      constraint (λ s. record s { commands = s.commands ++ queued c ∷ [] })

unfoldable pub insert_ban : BanRow → Tx (Unit {0})
unfolding constrained
insert_ban r =
    constrained (λ s. is_some (lookup r.device_id s.devices) && is_none (find_ban r.id s.bans))
      constraint (λ s. record s { bans = s.bans ++ r ∷ [] })

-- An entry of the audit refers to an action that exists.
unfoldable pub insert_audit : String → String → String → String → ℕ → Tx (Unit {0})
unfolding constrained
insert_audit action_id actor event details created_at =
    let entry : AuditRow = record {
      action_id = action_id;
      actor = actor;
      event = event;
      details = details;
      created_at = created_at;
    } in
    constrained (λ s. is_some (find_action action_id s.actions)) constraint
      (λ s. record s { audit = s.audit ++ entry ∷ [] })

-- These return the number of rows that they affect.
unfoldable pub update_actions : (ActionRow → Bool) → (ActionRow → ActionRow) → Tx ℕ
update_actions p f s =
    done (count_where p s.actions) (record s { actions = update_where p f s.actions })

unfoldable pub update_commands : (CommandRow → Bool) → (CommandRow → CommandRow) → Tx ℕ
update_commands p f s =
    done (count_where p s.commands) (record s { commands = update_where p f s.commands })

unfoldable pub update_bans : (BanRow → Bool) → (BanRow → BanRow) → Tx (Unit {0})
unfolding change
update_bans p f = change (λ s. record s { bans = update_where p f s.bans })

-- Opens every statement, for a run at a concrete input.
unfoldable pub statements : Unit {0}
unfolding pure fail read change constrained ◌>>=◌ require settle transact first_where count_where
    update_where find_action find_command find_ban insert_action queued insert_command insert_ban
    insert_audit update_actions update_commands update_bans
statements = tt
