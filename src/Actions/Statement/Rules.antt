-- ===== src/Actions/Statement/Rules.antt =====
-- A relation that each statement of a transaction keeps, one rule for each way to build one.
use mathlib.Core.Path.{subst}
use witshield.Base.{Bool, true, false, ◌≡◌, refl, if◌then◌else◌}
use witshield.Actions.Tables.{Tables}
use witshield.Actions.Statement.{
  Fault, Outcome, done, fault, Tx, pure, fail, read, change, constrained, continue, ◌>>=◌, require,
  transact, settle,
}

-- A relation from the tables before to the tables after.
abbrev pub Relation : Type 1
Relation = Tables → Tables → Type 0

pub record Preorder (R : Relation) : Type 0 where
  pub same : (s : Tables) → R s s
  pub then_ : {s t u : Tables} → R s t → R t u → R s u

-- The relation holds from the tables to those of the outcome, if there are any.
abbrev pub Ends : {A : Type 0} → Relation → Tables → Outcome A → Type 0
Ends R s (done a s') = R s s'
Ends R s (fault e) = Unit

pub Ends-if :
    {A : Type 0} (R : Relation) (s : Tables) (b : Bool) (m n : Tx A)
    → Ends R s (m s)
    → Ends R s (n s)
    → Ends R s ((if b then m else n) s)
Ends-if R s true m n x y = x
Ends-if R s false m n x y = y

pub record Keeps {A : Type 0} (R : Relation) (m : Tx A) : Type 0 where
  pub at : (s : Tables) → Ends R s (m s)

continue-inv :
    {A B : Type 0} (r : Outcome A) (f : A → Tx B) {b : B} {t : Tables}
    → continue r f ≡ done b t
    → (a : A) × (u : Tables) × (r ≡ done a u) × (f a u ≡ done b t)
continue-inv (done a u) f h = (a, u, refl, h)
continue-inv (fault e) f h = cc

-- A chain that succeeds has succeeded at each statement.
pub bind-inv :
    {A B : Type 0} (m : Tx A) (f : A → Tx B) (s : Tables) {b : B} {t : Tables}
    → (m >>= f) s ≡ done b t
    → (a : A) × (u : Tables) × (m s ≡ done a u) × (f a u ≡ done b t)
unfolding ◌>>=◌
bind-inv m f s h = continue-inv (m s) f h

pub Keeps-done :
    {A : Type 0} {R : Relation} {m : Tx A}
    → Keeps R m
    → {s t : Tables} {a : A} → m s ≡ done a t
    → R s t
Keeps-done {R = R} k {s = s} h = subst (Ends R s) h (k.at s)

module _ {R : Relation} (order : Preorder R) where
  pub Keeps-pure : {A : Type 0} (a : A) → Keeps R (pure a)
  unfolding pure
  Keeps-pure a = record { at = λ s. order.same s }

  pub Keeps-fail : {A : Type 0} (e : Fault) → Keeps R (fail {A = A} e)
  unfolding fail
  Keeps-fail e = record { at = λ s. tt }

  pub Keeps-require : (b : Bool) (e : Fault) → Keeps R (require b e)
  unfolding require
  Keeps-require true e = Keeps-pure tt
  Keeps-require false e = Keeps-fail e

  pub Keeps-if :
      {A : Type 0} (b : Bool) {m n : Tx A}
      → (b ≡ true → Keeps R m)
      → (b ≡ false → Keeps R n)
      → Keeps R (if b then m else n)
  Keeps-if true km kn = km refl
  Keeps-if false km kn = kn refl

  Ends-trans : {A : Type 0} (s t : Tables) (r : Outcome A) → R s t → Ends R t r → Ends R s r
  Ends-trans s t (done a u) st tu = order.then_ st tu
  Ends-trans s t (fault e) st tu = tt

  Ends-continue :
      {A B : Type 0} (s : Tables) (r : Outcome A) (f : A → Tx B)
      → Ends R s r
      → ((a : A) → Keeps R (f a))
      → Ends R s (continue r f)
  Ends-continue s (done a t) f st kf = Ends-trans s t (f a t) st ((kf a).at t)
  Ends-continue s (fault e) f st kf = tt

  pub Keeps-bind :
      {A B : Type 0} {m : Tx A} {f : A → Tx B}
      → Keeps R m
      → ((a : A) → Keeps R (f a))
      → Keeps R (m >>= f)
  unfolding ◌>>=◌
  Keeps-bind {m = m} {f = f} km kf = record { at = λ s. Ends-continue s (m s) f (km.at s) kf }

  -- The rest of the block knows what it read.
  pub Keeps-read :
      {A : Type 0} (f : Tables → Tx A) → ((s : Tables) → Ends R s (f s s)) → Keeps R (read >>= f)
  unfolding ◌>>=◌ read
  Keeps-read f k = record { at = k }

  pub Keeps-change : (g : Tables → Tables) → ((s : Tables) → R s (g s)) → Keeps R (change g)
  unfolding change
  Keeps-change g k = record { at = k }

  Ends-guard :
      (b : Bool) (e : Fault) (s t : Tables)
      → (b ≡ true → R s t)
      → Ends R s (if b then done tt t else fault e)
  Ends-guard true e s t k = k refl
  Ends-guard false e s t k = tt

  pub Keeps-constrained :
      (b : Tables → Bool) (e : Fault) (g : Tables → Tables)
      → ((s : Tables) → b s ≡ true → R s (g s))
      → Keeps R (constrained b e g)
  unfolding constrained
  Keeps-constrained b e g k = record { at = λ s. Ends-guard (b s) e s (g s) (k s) }

  settle-Ends : {A : Type 0} (s : Tables) (r : Outcome A) → Ends R s r → R s (settle s r).0
  unfolding settle
  settle-Ends s (done a t) h = h
  settle-Ends s (fault e) h = order.same s

  -- A transaction that fails leaves the tables alone, so the relation holds in any case.
  pub transact-Ends : {A : Type 0} (m : Tx A) (s : Tables) → Ends R s (m s) → R s (transact m s).0
  unfolding transact
  transact-Ends m s h = settle-Ends s (m s) h

  pub transact-Keeps : {A : Type 0} {m : Tx A} → Keeps R m → (s : Tables) → R s (transact m s).0
  transact-Keeps {m = m} k s = transact-Ends m s (k.at s)
