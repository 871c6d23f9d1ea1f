-- ===== src/Actions/Queue/Keyed.antt =====
-- Under the primary key of `device_commands` a claim does not fail (`ClaimCommands` of
-- internal/store/reports_commands.go): each of its updates affects one row.
use witshield.Base.{
  ℕ, String, true, false, ◌≡◌, refl, ap, ◌∙◌, List, [], ◌∷◌, All, map, eq_iff, arith,
}
use witshield.Actions.Tables.{CommandRow, Tables}
use witshield.Actions.Statement.{
  done, pure, fail, require, ◌>>=◌, count_where, update_where, is_none, update_commands,
}
use witshield.Actions.Policy.{is_open_command}
use witshield.Actions.Gate.{contains}
use witshield.Actions.Expiry.Select.{ids, All-implied}
use witshield.Actions.Expiry.Aged.{Aged, Pairs}
use witshield.Actions.Queue.{claimed, claim_each}
use witshield.Actions.Queue.Claims.{held}

-- No two rows have one id.
abbrev pub Keyed : List CommandRow → Type 0
Keyed [] = Unit
Keyed (c ∷ cs) = (contains c.id (ids cs) ≡ false) × Keyed cs

contains-Aged :
    (name : String) (xs ys : List CommandRow)
    → Pairs Aged xs ys
    → contains name (ids ys) ≡ contains name (ids xs)
unfolding contains
contains-Aged name [] [] h = refl
contains-Aged name [] (d ∷ ys) h = absurd h
contains-Aged name (c ∷ xs) [] h = absurd h
contains-Aged name (c ∷ xs) (d ∷ ys) (a, h) = ground (arith, a.id, contains-Aged name xs ys h)

pub Keyed-Aged : (xs ys : List CommandRow) → Pairs Aged xs ys → Keyed xs → Keyed ys
Keyed-Aged [] [] h k = tt
Keyed-Aged [] (d ∷ ys) h k = absurd h
Keyed-Aged (c ∷ xs) [] h k = absurd h
Keyed-Aged (c ∷ xs) (d ∷ ys) (a, h) (alone, k) =
    (contains-Aged d.id xs ys h ∙ ap (λ x. contains x (ids xs)) a.id ∙ alone, Keyed-Aged xs ys h k)

abbrev Once : List CommandRow → CommandRow → Type 0
Once rows c = is_none c.completed_at ≡ true → count_where (is_open_command c.id) rows ≡ 1

none_open :
    (name : String) (cs : List CommandRow)
    → contains name (ids cs) ≡ false
    → count_where (is_open_command name) cs ≡ 0
unfolding contains count_where is_open_command
none_open name [] h = refl
none_open name (c ∷ cs) h = ground (arith, none_open name cs)

Once-behind :
    (c : CommandRow) (cs ds : List CommandRow)
    → contains c.id (ids ds) ≡ false
    → All (Once cs) ds
    → All (Once (c ∷ cs)) ds
unfolding contains count_where is_open_command
Once-behind c cs [] h a = tt
Once-behind c cs (d ∷ ds) h (f, a) = (
  λ o. ground (arith, f o, eq_iff c.id d.id, eq_iff d.id c.id),
  Once-behind c cs ds (ground arith) a,
)

-- An open row is the only open one of its id.
pub Keyed-Once : (rows : List CommandRow) → Keyed rows → All (Once rows) rows
unfolding count_where is_open_command
Keyed-Once [] k = tt
Keyed-Once (c ∷ cs) (alone, k) = (
  λ o. ground (arith, none_open c.id cs alone, eq_iff c.id c.id),
  Once-behind c cs cs alone (Keyed-Once cs k),
)

count-held :
    (now : ℕ) (id name : String) (rows : List CommandRow)
    → count_where (is_open_command name) (update_where (is_open_command id) (claimed now) rows)
      ≡ count_where (is_open_command name) rows
unfolding count_where update_where is_open_command claimed
count-held now id name [] = refl
count-held now id name (c ∷ rows) = ground (arith, count-held now id name rows)

-- The claims of rows that are the only open ones of their ids all succeed.
pub claim_each-total :
    (now : ℕ) (cs : List CommandRow) (s : Tables)
    → All (λ c. count_where (is_open_command c.id) s.commands ≡ 1) cs
    → (t : Tables) × (claim_each now cs s ≡ done (map (claimed now) cs) t)
unfolding claim_each pure ◌>>=◌ update_commands require fail
claim_each-total now [] s a = (s, refl)
claim_each-total now (c ∷ cs) s (one, a) =
    let (t, rest) =
      claim_each-total now cs (held now c s)
        (All-implied _ _ cs (λ d e. count-held now c.id d.id s.commands ∙ e) a) in
    (t, rw (one, rest) refl)
