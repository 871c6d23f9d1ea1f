-- ===== src/Actions/Expiry/Aged.antt =====
-- Rows of commands that only age: the same commands, none of them opened again.
use witshield.Base.{Bool, true, false, ◌≡◌, refl, ◌∙◌, List, [], ◌∷◌, if◌then◌else◌}
use witshield.Actions.Tables.{CommandRow}
use witshield.Actions.Statement.{update_where, is_some}

-- The row is the same command, and has not been opened again.
pub record Aged (c d : CommandRow) : Type 0 where
  pub id : d.id ≡ c.id
  pub device_id : d.device_id ≡ c.device_id
  pub type : d.type ≡ c.type
  pub created_at : d.created_at ≡ c.created_at
  pub claimed_at : d.claimed_at ≡ c.claimed_at
  pub started_at : d.started_at ≡ c.started_at
  pub stays : is_some c.completed_at ≡ true → is_some d.completed_at ≡ true

pub Aged-refl : (c : CommandRow) → Aged c c
Aged-refl c = record {
  id = refl;
  device_id = refl;
  type = refl;
  created_at = refl;
  claimed_at = refl;
  started_at = refl;
  stays = λ h. h;
}

pub Aged-trans : {c d e : CommandRow} → Aged c d → Aged d e → Aged c e
Aged-trans a b = record {
  id = b.id ∙ a.id;
  device_id = b.device_id ∙ a.device_id;
  type = b.type ∙ a.type;
  created_at = b.created_at ∙ a.created_at;
  claimed_at = b.claimed_at ∙ a.claimed_at;
  started_at = b.started_at ∙ a.started_at;
  stays = λ h. b.stays (a.stays h);
}

-- Two lists of the same length, with the relation at every place.
abbrev pub Pairs : (CommandRow → CommandRow → Type 0) → List CommandRow → List CommandRow → Type 0
Pairs R [] [] = Unit
Pairs R (c ∷ cs) (d ∷ ds) = R c d × Pairs R cs ds
Pairs R _ _ = ⊥

pub Pairs-trans :
    (R Q S : CommandRow → CommandRow → Type 0) (xs ys zs : List CommandRow)
    → ((c d e : CommandRow) → R c d → Q d e → S c e)
    → Pairs R xs ys
    → Pairs Q ys zs
    → Pairs S xs zs
Pairs-trans R Q S [] [] [] h a b = tt
Pairs-trans R Q S [] [] (z ∷ zs) h a b = absurd b
Pairs-trans R Q S [] (y ∷ ys) zs h a b = absurd a
Pairs-trans R Q S (x ∷ xs) [] zs h a b = absurd a
Pairs-trans R Q S (x ∷ xs) (y ∷ ys) [] h a b = absurd b
Pairs-trans R Q S (x ∷ xs) (y ∷ ys) (z ∷ zs) h (a, aa) (b, bb) =
    (h x y z a b, Pairs-trans R Q S xs ys zs h aa bb)

pub Pairs-same :
    (R : CommandRow → CommandRow → Type 0) (xs : List CommandRow)
    → ((c : CommandRow) → R c c)
    → Pairs R xs xs
Pairs-same R [] h = tt
Pairs-same R (c ∷ xs) h = (h c, Pairs-same R xs h)

pub Pairs-implied :
    (R Q : CommandRow → CommandRow → Type 0) (xs ys : List CommandRow)
    → ((c d : CommandRow) → R c d → Q c d)
    → Pairs R xs ys
    → Pairs Q xs ys
Pairs-implied R Q [] [] h a = tt
Pairs-implied R Q [] (y ∷ ys) h a = absurd a
Pairs-implied R Q (x ∷ xs) [] h a = absurd a
Pairs-implied R Q (x ∷ xs) (y ∷ ys) h (a, aa) = (h x y a, Pairs-implied R Q xs ys h aa)

-- An update is a step of each row.
pub Pairs-update :
    (R : CommandRow → CommandRow → Type 0) (p : CommandRow → Bool) (f : CommandRow → CommandRow)
    (xs : List CommandRow)
    → ((c : CommandRow) → p c ≡ true → R c (f c))
    → ((c : CommandRow) → p c ≡ false → R c c)
    → Pairs R xs (update_where p f xs)
unfolding update_where
Pairs-update R p f [] h k = tt
Pairs-update R p f (c ∷ xs) h k = (row (p c) (h c) (k c), Pairs-update R p f xs h k)
  where
    row : (b : Bool) → (b ≡ true → R c (f c)) → (b ≡ false → R c c) → R c (if b then f c else c)
    row true h k = h refl
    row false h k = k refl
