-- ===== src/Agent/Queue/Names.antt =====
-- The names of the queue files (internal/agent/queue.go): sorting keeps them, and each stands once.
use Prim.Native.String.{compare}
use text.Mathlib.Text.{is_lt}
use mathlib.Core.Path.{subst}
use witshield.Base.{
  String, ◌≡◌, ◌≢◌, sym, ◌⊎◌, inl, inr, true, false, none, some, List, [], ◌∷◌, All, str_eq, eq_iff,
  Bool-cases, arith,
}
use witshield.Base.Dict.{lookup, Distinct}
use witshield.Agent.Queue.{Entry, Directory, is_queue_file, insert_name, sort_names, queue_names}

-- No name stands twice.
abbrev pub Unique : List String → Type 0
Unique [] = Unit
Unique (x ∷ xs) = All (λ y. y ≢ x) xs × Unique xs

insert_name-cases :
    (x y : String) (ys : List String)
    → (insert_name x (y ∷ ys) ≡ y ∷ insert_name x ys) ⊎ (insert_name x (y ∷ ys) ≡ x ∷ y ∷ ys)
unfolding insert_name
insert_name-cases x y ys = elim (Bool-cases (is_lt (compare y x))) [
  | inl e ↦ inl (ground arith)
  | inr e ↦ inr (ground arith)
]

All-insert_name :
    (P : String → Type 0) (x : String) (xs : List String)
    → P x
    → All P xs
    → All P (insert_name x xs)
All-insert_name P x [] p a = unfold insert_name in (p, tt)
All-insert_name P x (y ∷ ys) p a = elim (insert_name-cases x y ys) [
  | inl e ↦ subst (All P) (sym e) (a.0, All-insert_name P x ys p a.1)
  | inr e ↦ subst (All P) (sym e) (p, a)
]

All-of_insert :
    (P : String → Type 0) (x : String) (xs : List String)
    → All P (insert_name x xs)
    → P x × All P xs
All-of_insert P x [] a = unfold insert_name in a
All-of_insert P x (y ∷ ys) a = elim (insert_name-cases x y ys) [
  | inl e ↦
      let b : P y × All P (insert_name x ys) = subst (All P) e a in
      let (p, rest) = All-of_insert P x ys b.1 in (p, (b.0, rest))
  | inr e ↦ subst (All P) e a
]

All-sort_names : (P : String → Type 0) (xs : List String) → All P xs → All P (sort_names xs)
unfolding sort_names
All-sort_names P [] a = a
All-sort_names P (x ∷ xs) a = All-insert_name P x (sort_names xs) a.0 (All-sort_names P xs a.1)

pub All-of_sorted : (P : String → Type 0) (xs : List String) → All P (sort_names xs) → All P xs
unfolding sort_names
All-of_sorted P [] a = a
All-of_sorted P (x ∷ xs) a =
    let (p, rest) = All-of_insert P x (sort_names xs) a in (p, All-of_sorted P xs rest)

All-flip : (x : String) (xs : List String) → All (λ y. y ≢ x) xs → All (λ y. x ≢ y) xs
All-flip x [] a = tt
All-flip x (y ∷ ys) (n, a) = ((λ e. n (sym e)), All-flip x ys a)

Unique-insert_name :
    (x : String) (xs : List String) → All (λ y. y ≢ x) xs → Unique xs → Unique (insert_name x xs)
Unique-insert_name x [] a u = unfold insert_name in (tt, tt)
Unique-insert_name x (y ∷ ys) a u = elim (insert_name-cases x y ys) [
  | inl e ↦
      subst Unique (sym e)
        (All-insert_name (λ z. z ≢ y) x ys (λ q. a.0 (sym q)) u.0, Unique-insert_name x ys a.1 u.1)
  | inr e ↦ subst Unique (sym e) (a, u)
]

pub Unique-sort_names : (xs : List String) → Unique xs → Unique (sort_names xs)
unfolding sort_names
Unique-sort_names [] u = u
Unique-sort_names (x ∷ xs) u =
    Unique-insert_name x (sort_names xs) (All-sort_names (λ y. y ≢ x) xs u.0)
      (Unique-sort_names xs u.1)

queue_names-in :
    (name : String) (e : Entry) (rest : Directory)
    → is_queue_file name e ≡ true
    → queue_names ((name, e) ∷ rest) ≡ name ∷ queue_names rest
unfolding queue_names
queue_names-in name e rest h = ground arith

queue_names-out :
    (name : String) (e : Entry) (rest : Directory)
    → is_queue_file name e ≡ false
    → queue_names ((name, e) ∷ rest) ≡ queue_names rest
unfolding queue_names
queue_names-out name e rest h = ground arith

absent_rest :
    (x name : String) (e : Entry) (rest : Directory)
    → lookup x ((name, e) ∷ rest) ≡ none
    → (name ≢ x) × (lookup x rest ≡ none)
unfolding lookup
absent_rest x name e rest h = ground (arith, eq_iff name x)

-- A name that is not there is no name of the queue.
queue_names-absent :
    (x : String) (entries : Directory)
    → lookup x entries ≡ none
    → All (λ y. y ≢ x) (queue_names entries)
queue_names-absent x [] h = unfold queue_names in tt
queue_names-absent x ((name, e) ∷ rest) h =
    let (other, absent) = absent_rest x name e rest h in
    elim (Bool-cases (is_queue_file name e)) [
      | inl q ↦
          subst (All (λ y. y ≢ x)) (sym (queue_names-in name e rest q))
            (other, queue_names-absent x rest absent)
      | inr q ↦
          subst (All (λ y. y ≢ x)) (sym (queue_names-out name e rest q))
            (queue_names-absent x rest absent)
    ]

pub queue_names-Unique : (entries : Directory) → Distinct entries → Unique (queue_names entries)
queue_names-Unique [] d = unfold queue_names in tt
queue_names-Unique ((name, e) ∷ rest) d = elim (Bool-cases (is_queue_file name e)) [
  | inl q ↦
      subst Unique (sym (queue_names-in name e rest q))
        (queue_names-absent name rest d.0, queue_names-Unique rest d.1)
  | inr q ↦ subst Unique (sym (queue_names-out name e rest q)) (queue_names-Unique rest d.1)
]

head_counted :
    (name n : String) (f : Entry) (rest : Directory) {e : Entry}
    → lookup name ((n, f) ∷ rest) ≡ some e
    → is_queue_file name e ≡ true
    → n ≡ name
    → is_queue_file n f ≡ true
unfolding lookup
head_counted name n f rest {e} h q same = ground (arith, eq_iff n name)

found_rest :
    (name n : String) (f : Entry) (rest : Directory) {e : Entry}
    → lookup name ((n, f) ∷ rest) ≡ some e
    → str_eq n name ≡ false
    → lookup name rest ≡ some e
unfolding lookup
found_rest name n f rest h other = ground (arith, eq_iff n name)

tail-All :
    (P : String → Type 0) (n : String) (f : Entry) (rest : Directory)
    → All P (queue_names ((n, f) ∷ rest))
    → All P (queue_names rest)
tail-All P n f rest a = elim (Bool-cases (is_queue_file n f)) [
  | inl q ↦ (subst (All P) (queue_names-in n f rest q) a).1
  | inr q ↦ subst (All P) (queue_names-out n f rest q) a
]

-- What holds of the queue's names holds of each of its files.
pub queue_names-each :
    (P : String → Type 0) (entries : Directory) (name : String) {e : Entry}
    → All P (queue_names entries)
    → lookup name entries ≡ some e
    → is_queue_file name e ≡ true
    → P name
queue_names-each P [] name a h q = unfold lookup in absurd (ground (arith, h))
queue_names-each P ((n, f) ∷ rest) name {e} a h q = elim (Bool-cases (str_eq n name)) [
  | inl here ↦
      let same : n ≡ name = (eq_iff n name).0 here in
      let counted : is_queue_file n f ≡ true = head_counted name n f rest h q same in
      let b : P n × All P (queue_names rest) = subst (All P) (queue_names-in n f rest counted) a in
      subst P same b.0
  | inr other ↦
      queue_names-each P rest name (tail-All P n f rest a) (found_rest name n f rest h other) q
]
