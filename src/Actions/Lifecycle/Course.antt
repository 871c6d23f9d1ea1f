-- ===== src/Actions/Lifecycle/Course.antt =====
-- Where the actions of the store go under the calls of Calls.
use mathlib.Core.Path.{subst}
use witshield.Base.{
  String, Bool, true, false, ◌≡◌, refl, sym, ap, Option, none, some, List, [], ◌∷◌, ◌++◌, str_eq,
  if◌then◌else◌, arith,
}
use witshield.Actions.Tables.{Tables, ActionRow}
use witshield.Actions.Statement.{find_action, update_where}
use witshield.Actions.Statement.Find.{or_else, first_where-update, first_where-append, updated}
use witshield.Actions.Calls.{Call, perform_all}
use witshield.Actions.Lifecycle.{SameProposal, Step, approve, move, Evolves, here, next}
use witshield.Actions.Lifecycle.Sequences.{OfActions, perform_all-R}

SameProposal-refl : (r : ActionRow) → SameProposal r r
SameProposal-refl r = ground arith

SameProposal-trans : {q r t : ActionRow} → SameProposal q r → SameProposal r t → SameProposal q t
SameProposal-trans a b = ground arith

pub Step-SameProposal : {r t : ActionRow} → Step r t → SameProposal r t
Step-SameProposal (approve p _ _ _) = p
Step-SameProposal (move p _ _ _ _ _) = p

Evolves-SameProposal : {r t : ActionRow} → Evolves r t → SameProposal r t
Evolves-SameProposal {r} here = SameProposal-refl r
Evolves-SameProposal (next e st) =
    SameProposal-trans (Evolves-SameProposal e) (Step-SameProposal st)

Evolves-trans : {q r t : ActionRow} → Evolves q r → Evolves r t → Evolves q t
Evolves-trans e here = e
Evolves-trans e (next e' st) = next (Evolves-trans e e') st

-- A row that is there stays, and has gone through steps.
abbrev pub Later : Option ActionRow → Option ActionRow → Type 0
Later none o = Unit
Later (some r) none = ⊥
Later (some r) (some t) = Evolves r t

abbrev pub Course : Tables → Tables → Type 0
Course s t = (id : String) → Later (find_action id s.actions) (find_action id t.actions)

Later-refl : (o : Option ActionRow) → Later o o
Later-refl none = tt
Later-refl (some r) = here

Later-trans : (o p q : Option ActionRow) → Later o p → Later p q → Later o q
Later-trans none p q a b = tt
Later-trans (some r) none q a b = absurd a
Later-trans (some r) (some t) none a b = b
Later-trans (some r) (some t) (some u) a b = Evolves-trans a b

Later-updated :
    (p : ActionRow → Bool) (f : ActionRow → ActionRow) (o : Option ActionRow)
    → ((r : ActionRow) → p r ≡ true → Step r (f r))
    → Later o (updated p f o)
Later-updated p f none h = tt
Later-updated p f (some r) h = row (p r) (h r)
  where
    row : (b : Bool) → (b ≡ true → Step r (f r)) → Evolves r (if b then f r else r)
    row true st = next here (st refl)
    row false st = here

Later-or_else : (o q : Option ActionRow) → Later o (or_else o q)
Later-or_else none q = tt
Later-or_else (some r) q = here

pub find_action-update :
    (id : String) (p : ActionRow → Bool) (f : ActionRow → ActionRow) (rows : List ActionRow)
    → ((r : ActionRow) → p r ≡ true → Step r (f r))
    → find_action id (update_where p f rows) ≡ updated p f (find_action id rows)
unfolding find_action
find_action-update id p f rows h =
    first_where-update (λ r. str_eq r.id id) p f rows
      (λ r e. ap (λ x. str_eq x id) (Step-SameProposal (h r e)).id)

pub find_action-append :
    (id : String) (rows : List ActionRow) (r : ActionRow)
    → find_action id (rows ++ r ∷ [])
      ≡ or_else (find_action id rows) (if str_eq r.id id then some r else none)
unfolding find_action
find_action-append id rows r = first_where-append (λ x. str_eq x.id id) rows r

pub Course-kept : OfActions Course
Course-kept = record {
  order = record {
    same = λ s id. Later-refl (find_action id s.actions);
    then_ = λ {s} {t} {u} a b id.
        Later-trans (find_action id s.actions) (find_action id t.actions) (find_action id u.actions)
          (a id) (b id);
  };
  same_actions = λ s t e id.
      subst (λ x. Later (find_action id s.actions) (find_action id x)) (sym e)
        (Later-refl (find_action id s.actions));
  moves = λ p f h s id.
      subst (λ x. Later (find_action id s.actions) x) (sym (find_action-update id p f s.actions h))
        (Later-updated p f (find_action id s.actions) h);
  adds = λ r fresh s new id.
      subst (λ x. Later (find_action id s.actions) x) (sym (find_action-append id s.actions r))
        (Later-or_else (find_action id s.actions) _);
}

pub Later-some :
    {r : ActionRow} (o : Option ActionRow)
    → Later (some r) o
    → (t : ActionRow) × (o ≡ some t) × Evolves r t
Later-some none h = absurd h
Later-some (some t) h = (t, refl, h)

pub calls-Evolves :
    (calls : List Call) (s : Tables) (id : String) (r : ActionRow)
    → find_action id s.actions ≡ some r
    → (t : ActionRow) × (find_action id (perform_all calls s).actions ≡ some t)
      × Evolves r t
      × SameProposal r t
calls-Evolves calls s id r found =
    let later = Later-some (find_action id (perform_all calls s).actions) (
      subst (λ o. Later o (find_action id (perform_all calls s).actions)) found
        (perform_all-R Course-kept calls s id)) in
    (later.0, later.1, later.2, Evolves-SameProposal later.2)
