-- ===== src/Actions/Queue/Delivery.antt =====
-- What a claim of commands delivers (`ClaimCommands` of internal/store/reports_commands.go).
use mathlib.Core.Path.{subst}
use witshield.Base.{
  ℕ, suc, ◌+◌, ◌≤◌, String, Bool, true, false, ◌≡◌, refl, sym, ap, ◌∙◌, Option, none, some, List,
  [], ◌∷◌, All, length, map, eq_iff, arith,
}
use witshield.Actions.Tables.{CommandRow, Tables}
use witshield.Actions.Statement.{done, count_where, is_none}
use witshield.Actions.Gate.{is_action_command, action_command_ttl}
use witshield.Actions.Expiry.{is_undelivered, is_unanswered, on_device, select_where, order_by}
use witshield.Actions.Expiry.Select.{
  All-implied, All-select_where, All-order_by, All-limit_to, length-limit_to,
}
use witshield.Actions.Expiry.Sweep.{sweep_complete, count-Aged, is_undelivered-back}
use witshield.Actions.Queue.{
  claimed, is_claimable, is_lapsed, claimable, claim_limit, claim_commands,
}
use witshield.Actions.Queue.Claims.{claim-stages}
use witshield.Actions.Queue.Keyed.{Keyed, Keyed-Aged, Keyed-Once, claim_each-total}

-- A command for the device, open, claimed at the time, and within its lifetime unless it has started.
pub record Delivered (device_id : String) (now : ℕ) (c : CommandRow) : Type 0 where
  pub of_device : c.device_id ≡ device_id
  pub is_open : c.completed_at ≡ none
  pub claimed_at : c.claimed_at ≡ some now
  pub in_time :
      is_action_command c.type ≡ true
      → c.started_at ≡ none
      → now ≤ c.created_at + action_command_ttl

pub All-map :
    {A B : Type 0} (P : B → Type 0) (f : A → B) (xs : List A)
    → All (λ x. P (f x)) xs
    → All P (map f xs)
All-map P f [] a = tt
All-map P f (x ∷ xs) (h, a) = (h, All-map P f xs a)

length-map : {A B : Type 0} (f : A → B) (xs : List A) → length (map f xs) ≡ length xs
length-map f [] = refl
length-map f (x ∷ xs) = ap suc (length-map f xs)

none_counted :
    (p : CommandRow → Bool) (rows : List CommandRow)
    → count_where p rows ≡ 0
    → All (λ c. p c ≡ false) rows
unfolding count_where
none_counted p [] h = tt
none_counted p (c ∷ rows) h = (ground arith, none_counted p rows (ground arith))

All-both :
    {A : Type 0} (P Q : A → Type 0) (xs : List A) → All P xs → All Q xs → All (λ x. P x × Q x) xs
All-both P Q [] a b = tt
All-both P Q (x ∷ xs) (h, a) (k, b) = ((h, k), All-both P Q xs a b)

pub All-claimable :
    (P : CommandRow → Type 0) (device_id : String) (limit now : ℕ) (rows : List CommandRow)
    → All P rows
    → All (λ c. P c × (is_claimable device_id now c ≡ true)) (claimable device_id limit now rows)
unfolding claimable
All-claimable P device_id limit now rows a =
    All-limit_to _ (claim_limit limit) _ (
      All-order_by _ (λ c. c.created_at) _ (All-select_where P (is_claimable device_id now) rows a))

pub claimable-open :
    (device_id : String) (now : ℕ) (c : CommandRow)
    → is_claimable device_id now c ≡ true
    → (c.device_id ≡ device_id)
      × (is_none c.completed_at ≡ true)
      × (is_lapsed now c.claimed_at ≡ true)
unfolding is_claimable
claimable-open device_id now c h = ground (arith, eq_iff c.device_id device_id)

is_none-eq : {A : Type 0} (o : Option A) → is_none o ≡ true → o ≡ none
is_none-eq none h = refl
is_none-eq (some a) h = cc

claimed-Delivered :
    (device_id : String) (now : ℕ) (c : CommandRow)
    → is_undelivered device_id now c ≡ false
    → is_claimable device_id now c ≡ true
    → Delivered device_id now (claimed now c)
unfolding claimed is_undelivered on_device
claimed-Delivered device_id now c fresh h =
    let (mine, open_c, _) = claimable-open device_id now c h in
    record {
      of_device = mine;
      is_open = is_none-eq c.completed_at open_c;
      claimed_at = refl;
      in_time = λ a u. ground (arith, eq_iff c.device_id device_id, ap is_none u);
    }

length-claimable :
    (device_id : String) (limit now : ℕ) (rows : List CommandRow)
    → length (claimable device_id limit now rows) ≤ 20
unfolding claimable
length-claimable device_id limit now rows =
    let selected = order_by (λ c. c.created_at) (select_where (is_claimable device_id now) rows) in
    ground (arith, length-limit_to (claim_limit limit) selected)

-- Where the ids of the commands are different and at most 500 commands are stale in each way, a claim
-- succeeds. It delivers at most twenty commands, each one open, of the device, and claimed now; and no
-- action command that has not started is delivered later than ten minutes after it was created.
pub claim_delivers :
    (device_id : String) (limit now : ℕ) (s : Tables)
    → Keyed s.commands
    → count_where (is_undelivered device_id now) s.commands ≤ 500
    → count_where (is_unanswered device_id now) s.commands ≤ 500
    → (out : List CommandRow) × (t : Tables) × (claim_commands device_id limit now s ≡ done out t)
      × (length out ≤ 20)
      × All (Delivered device_id now) out
claim_delivers device_id limit now s keyed few few' =
    let (u, swept, aged, none_stale, _) = sweep_complete device_id now s few few' in
    let (v, staged, aged') = claim-stages device_id limit now s u swept in
    let fewer =
      count-Aged (is_undelivered device_id now) (is_undelivered-back device_id now) u.commands
        v.commands aged' in
    let rows =
      All-both _ _ v.commands (none_counted (is_undelivered device_id now) v.commands (omega arith))
        (Keyed-Once v.commands
          (Keyed-Aged u.commands v.commands aged' (Keyed-Aged s.commands u.commands aged keyed))) in
    let cs = claimable device_id limit now v.commands in
    let chosen = All-claimable _ device_id limit now v.commands rows in
    let (t, run) =
      claim_each-total now cs v
        (All-implied _ _ cs (λ c h. h.0.1 (claimable-open device_id now c h.1).1) chosen) in
    (
      map (claimed now) cs,
      t,
      staged ∙ run,
      subst (λ n. n ≤ 20) (sym (length-map (claimed now) cs))
          (length-claimable device_id limit now v.commands),
      All-map _ (claimed now) cs
          (All-implied _ _ cs (λ c h. claimed-Delivered device_id now c h.0.0 h.1) chosen),
    )
