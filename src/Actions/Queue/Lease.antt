-- ===== src/Actions/Queue/Lease.antt =====
-- A command that a device has claimed is not delivered again for two minutes (`ClaimCommands` of
-- internal/store/reports_commands.go).
use mathlib.Core.Path.{subst}
use witshield.Base.{
  ℕ, ◌+◌, ◌*◌, ◌≤◌, String, true, false, ◌≡◌, refl, sym, ap, ◌∙◌, inl, inr, some, List, [], ◌∷◌,
  All, map, Bool-cases, arith,
}
use witshield.Actions.Tables.{CommandRow, Tables}
use witshield.Actions.Statement.{done, is_none}
use witshield.Actions.Approval.{minute}
use witshield.Actions.Gate.{contains}
use witshield.Actions.Expiry.Select.{All-implied, ids}
use witshield.Actions.Expiry.Aged.{Aged, Pairs}
use witshield.Actions.Expiry.Ended.{is_open-back}
use witshield.Actions.Expiry.Sweep.{sweep_ends}
use witshield.Actions.Queue.{claimed, is_claimable, is_lapsed, claimable, claim_commands}
use witshield.Actions.Queue.Claims.{claim-stages, Held, claim_each-Held}
use witshield.Actions.Queue.Delivery.{All-claimable, All-map, claimable-open}

-- What the rows before give, the rows after have.
Pairs-All :
    (R : CommandRow → CommandRow → Type 0) (P Q : CommandRow → Type 0) (xs ys : List CommandRow)
    → ((c d : CommandRow) → R c d → P c → Q d)
    → Pairs R xs ys
    → All P xs
    → All Q ys
Pairs-All R P Q [] [] h p a = tt
Pairs-All R P Q [] (d ∷ ys) h p a = absurd p
Pairs-All R P Q (c ∷ xs) [] h p a = absurd p
Pairs-All R P Q (c ∷ xs) (d ∷ ys) h (r, p) (x, a) = (h c d r x, Pairs-All R P Q xs ys h p a)

All-unit : (xs : List CommandRow) → All (λ _. Unit {0}) xs
All-unit [] = tt
All-unit (c ∷ xs) = (tt, All-unit xs)

-- Where the id is listed and the row is open, it was claimed at the time.
abbrev Leased : List String → ℕ → CommandRow → Type 0
Leased names now c =
    contains c.id names ≡ true → is_none c.completed_at ≡ true → c.claimed_at ≡ some now

Held-Leased :
    (names : List String) (now : ℕ) (c d : CommandRow) → Held names now c d → Leased names now d
Held-Leased names now c d h m o =
    h.holds (ap (λ x. contains x names) (sym h.id) ∙ m) (ap is_none (sym h.completed_at) ∙ o)

Leased-Aged :
    (names : List String) (now : ℕ) (c d : CommandRow)
    → Aged c d
    → Leased names now c
    → Leased names now d
Leased-Aged names now c d a l m o =
    a.claimed_at ∙ l (ap (λ x. contains x names) (sym a.id) ∙ m) (is_open-back c d a o)

ids-claimed : (now : ℕ) (cs : List CommandRow) → ids (map (claimed now) cs) ≡ ids cs
unfolding claimed
ids-claimed now [] = refl
ids-claimed now (c ∷ cs) = ap (λ xs. c.id ∷ xs) (ids-claimed now cs)

-- A claim that succeeds leaves its commands leased.
claim-Leased :
    (device_id : String) (limit now : ℕ) (s : Tables) (out : List CommandRow) (t : Tables)
    → claim_commands device_id limit now s ≡ done out t
    → All (Leased (ids out) now) t.commands
claim-Leased device_id limit now s out t h =
    let (u, swept, _) = sweep_ends device_id now s in
    let (v, staged, _) = claim-stages device_id limit now s u swept in
    let cs = claimable device_id limit now v.commands in
    let (e, pairs) = claim_each-Held now cs v out t (sym staged ∙ h) in
    subst (λ names. All (Leased names now) t.commands) (sym (ap ids e ∙ ids-claimed now cs))
      (Pairs-All _ _ _ v.commands t.commands (λ c d r _. Held-Leased (ids cs) now c d r) pairs
        (All-unit v.commands))

not_lapsed :
    (names : List String) (device_id : String) (now now' : ℕ) (c : CommandRow)
    → now' ≤ now + 2 * minute
    → Leased names now c
    → is_claimable device_id now' c ≡ true
    → contains c.id names ≡ false
unfolding is_lapsed
not_lapsed names device_id now now' c soon l h = elim (Bool-cases (contains c.id names)) [
  | inl m ↦ let (_, o, lapsed) = claimable-open device_id now' c h in ground (arith, l m o)
  | inr m ↦ m
]

-- Two claims follow one another within two minutes, by any devices: the second delivers no command that
-- the first delivered.
pub claimed_once :
    (device_id device' : String) (limit limit' now now' : ℕ) (s t t' : Tables)
    (out out' : List CommandRow)
    → now' ≤ now + 2 * minute
    → claim_commands device_id limit now s ≡ done out t
    → claim_commands device' limit' now' t ≡ done out' t'
    → All (λ c. contains c.id (ids out) ≡ false) out'
unfolding claimed
claimed_once device_id device' limit limit' now now' s t t' out out' soon h h' =
    let (u, swept, aged) = sweep_ends device' now' t in
    let (v, staged, aged') = claim-stages device' limit' now' t u swept in
    let cs = claimable device' limit' now' v.commands in
    let leased = Pairs-All Aged _ _ u.commands v.commands (Leased-Aged (ids out) now) aged' (
      Pairs-All Aged _ _ t.commands u.commands (Leased-Aged (ids out) now) aged
        (claim-Leased device_id limit now s out t h)) in
    let (e, _) = claim_each-Held now' cs v out' t' (sym staged ∙ h') in
    subst (All (λ c. contains c.id (ids out) ≡ false)) (sym e) (
      All-map _ (claimed now') cs (
        All-implied _ _ cs (λ c x. not_lapsed (ids out) device' now now' c soon x.0 x.1)
          (All-claimable _ device' limit' now' v.commands leased)))
