-- ===== src/Actions/Queue/Claims.antt =====
-- The parts of a claim of commands (`ClaimCommands` of internal/store/reports_commands.go): what the
-- claimed rows are, and that under a primary key each claim affects one row.
use mathlib.Core.Path.{subst}
use witshield.Base.{
  ℕ, String, Bool, true, false, ◌≡◌, refl, ap, ◌∙◌, inl, inr, some, List, [], ◌∷◌, map, len, ◌==◌,
  str_eq, eq_iff, if◌then◌else◌, Bool-cases, arith,
}
use witshield.Actions.Tables.{CommandRow, Tables}
use witshield.Actions.Statement.{
  conflict, continue, done, pure, fail, read, require, ◌>>=◌, count_where, update_where, is_none,
  update_commands,
}
use witshield.Actions.Statement.Rules.{bind-inv}
use witshield.Actions.Policy.{is_open_command}
use witshield.Actions.Gate.{contains}
use witshield.Actions.Expiry.{expire_stale_action_commands}
use witshield.Actions.Expiry.Select.{ids}
use witshield.Actions.Expiry.Aged.{Aged, Aged-refl, Pairs, Pairs-trans, Pairs-same, Pairs-update}
use witshield.Actions.Queue.{
  claimed, claim_each, claimable, claim_commands, supersede_older, supersede_pending_scan_commands,
  superseded, is_superseded, latest_pending_scan_command,
}

superseded-Aged : (now : ℕ) (c : CommandRow) → Aged c (superseded now c)
unfolding superseded
superseded-Aged now c = record {
  id = refl;
  device_id = refl;
  type = refl;
  created_at = refl;
  claimed_at = refl;
  started_at = refl;
  stays = λ _. refl;
}

supersede_older-Aged :
    (device_id latest : String) (now : ℕ) (s : Tables)
    → (t : Tables) × (supersede_older device_id latest now s ≡ done tt t)
      × Pairs Aged s.commands t.commands
unfolding supersede_older supersede_pending_scan_commands ◌>>=◌ pure update_commands
supersede_older-Aged device_id latest now s = row (len latest == 0)
  where
    row :
        (b : Bool)
        → (t : Tables) × ((if b
                then pure tt
                else supersede_pending_scan_commands device_id latest now)
              s
            ≡ done tt t)
          × Pairs Aged s.commands t.commands
    row true = (s, refl, Pairs-same Aged s.commands Aged-refl)
    row false = (
      _,
      refl,
      Pairs-update Aged (is_superseded device_id latest) (superseded now) s.commands
          (λ c _. superseded-Aged now c) (λ c _. Aged-refl c),
    )

-- A claim sweeps, keeps the newest scan, and then claims the rows it selects.
pub claim-stages :
    (device_id : String) (limit now : ℕ) (s u : Tables)
    → expire_stale_action_commands device_id now s ≡ done tt u
    → (v : Tables) × (claim_commands device_id limit now s
        ≡ claim_each now (claimable device_id limit now v.commands) v)
      × Pairs Aged u.commands v.commands
unfolding claim_commands ◌>>=◌ read
claim-stages device_id limit now s u swept =
    let (v, kept, aged) =
      supersede_older-Aged device_id (latest_pending_scan_command device_id u.commands) now u in
    let claim =
      λ (_ : Unit {0}) (y : Tables). claim_each now (claimable device_id limit now y.commands) y in
    let keep = λ (_ : Unit {0}) (x : Tables).
      continue (supersede_older device_id (latest_pending_scan_command device_id x.commands) now x)
        claim in
    (v, ap (λ o. continue o keep) swept ∙ ap (λ o. continue o claim) kept, aged)

-- The row is the same but for a claim, which it has where its id is listed and it is open.
pub record Held (names : List String) (now : ℕ) (c d : CommandRow) : Type 0 where
  pub id : d.id ≡ c.id
  pub completed_at : d.completed_at ≡ c.completed_at
  pub holds : contains c.id names ≡ true → is_none c.completed_at ≡ true → d.claimed_at ≡ some now
  pub stays : c.claimed_at ≡ some now → d.claimed_at ≡ some now

Held-none : (now : ℕ) (c : CommandRow) → Held [] now c c
unfolding contains
Held-none now c = record { id = refl; completed_at = refl; holds = λ e. cc; stays = λ h. h }

Held-add :
    (name : String) (names : List String) (now : ℕ) (c d e : CommandRow)
    → Held (name ∷ []) now c d
    → Held names now d e
    → Held (name ∷ names) now c e
unfolding contains
Held-add name names now c d e a b = record {
  id = b.id ∙ a.id;
  completed_at = b.completed_at ∙ a.completed_at;
  holds = λ f o. elim (Bool-cases (str_eq name c.id)) [
    | inl m ↦ b.stays (a.holds (ground arith) o)
    | inr m ↦
        b.holds (ap (λ x. contains x names) a.id ∙ ground arith) (ap is_none a.completed_at ∙ o)
  ];
  stays = λ h. b.stays (a.stays h);
}

Held-update :
    (now : ℕ) (c : CommandRow) (rows : List CommandRow)
    → Pairs (Held (c.id ∷ []) now) rows (update_where (is_open_command c.id) (claimed now) rows)
unfolding claimed contains is_open_command
Held-update now c rows =
    Pairs-update _ (is_open_command c.id) (claimed now) rows
      (λ d _. record { id = refl; completed_at = refl; holds = λ _ _. refl; stays = λ _. refl })
      (λ d h. record {
        id = refl;
        completed_at = refl;
        holds = λ e o. ground (arith, eq_iff c.id d.id, eq_iff d.id c.id);
        stays = λ h. h;
      })

abbrev pub held : ℕ → CommandRow → Tables → Tables
held now c s = record s { commands = update_where (is_open_command c.id) (claimed now) s.commands }

claim_each-inv :
    (now : ℕ) (c : CommandRow) (cs : List CommandRow) (s : Tables) (out : List CommandRow)
    (t : Tables)
    → claim_each now (c ∷ cs) s ≡ done out t
    → (rest : List CommandRow) × (claim_each now cs (held now c s) ≡ done rest t)
      × (out ≡ claimed now c ∷ rest)
unfolding claim_each ◌>>=◌ update_commands require fail pure
claim_each-inv now c cs s out t h = row (count_where (is_open_command c.id) s.commands == 1) h
  where
    row :
        (b : Bool)
        → (require b conflict >>= λ _. claim_each now cs >>= λ out. pure (claimed now c ∷ out))
            (held now c s)
          ≡ done out t
        → (rest : List CommandRow) × (claim_each now cs (held now c s) ≡ done rest t)
          × (out ≡ claimed now c ∷ rest)
    row true h =
        let (rest, u, claims, ends) =
          bind-inv (claim_each now cs) (λ out. pure (claimed now c ∷ out)) (held now c s) h in
        (rest, ground arith, ground arith)
    row false h = cc

-- A claim that succeeds returns its rows as they are then, and holds them.
pub claim_each-Held :
    (now : ℕ) (cs : List CommandRow) (s : Tables) (out : List CommandRow) (t : Tables)
    → claim_each now cs s ≡ done out t
    → (out ≡ map (claimed now) cs) × Pairs (Held (ids cs) now) s.commands t.commands
unfolding claim_each pure
claim_each-Held now [] s out t h =
    let same : s ≡ t = ground arith in
    (
      ground arith,
      subst (λ (x : Tables). Pairs (Held [] now) s.commands x.commands) same
          (Pairs-same _ s.commands (Held-none now)),
    )
claim_each-Held now (c ∷ cs) s out t h =
    let (rest, claims, e) = claim_each-inv now c cs s out t h in
    let (f, pairs) = claim_each-Held now cs (held now c s) rest t claims in
    (
      e ∙ ap (λ xs. claimed now c ∷ xs) f,
      Pairs-trans _ _ _ s.commands (held now c s).commands t.commands (Held-add c.id (ids cs) now)
          (Held-update now c s.commands) pairs,
    )
