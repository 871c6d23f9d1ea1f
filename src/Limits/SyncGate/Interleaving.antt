-- ===== src/Limits/SyncGate/Interleaving.antt =====
-- Every interleaving of `begin` and of the release functions: at most one sync of a device and at
-- most `max_global` syncs run at once, and nothing stays behind when all are done
-- (internal/httpapi/agent_limits.go).
use witshield.Base.{
  ℕ, suc, ◌+◌, ◌≤◌, ◌<◌, String, ◌≡◌, refl, ◌∙◌, false, none, some, List, [], ◌∷◌, str_eq,
  if◌then◌else◌, length, eq_iff, arith,
}
use witshield.Limits.SyncGate.{
  SyncGate, contains, remove_all, enter, acquire, drain, leave, new_sync_gate,
}

unfoldable pub count : String → List String → ℕ
count d [] = 0
count d (x ∷ xs) = let rest = count d xs in if str_eq x d then suc rest else rest

-- Takes one goroutine of a device out of a list.
unfoldable pub take_out : String → List String → List String
take_out d [] = []
take_out d (x ∷ xs) = let rest = take_out d xs in if str_eq x d then xs else x ∷ rest

-- The gate, and the devices of the goroutines: past the first critical section, holding a place,
-- past the receive of the release function, and past the default case of the `select`.
pub record System : Type 0 where
  pub gate : SyncGate
  pub entering : List String
  pub holding : List String
  pub releasing : List String
  pub leaving : List String

pub data Step : System → System → Type 0 where
  entered :
      (s : System) (d : String) (g : SyncGate)
      → enter d s.gate ≡ some g
      → Step s (record s { gate = g; entering = d ∷ s.entering })
  acquired :
      (s : System) (d : String) (g : SyncGate)
      → 0 < count d s.entering
      → acquire s.gate ≡ some g
      → Step s (record s { gate = g; entering = take_out d s.entering; holding = d ∷ s.holding })
  found_full :
      (s : System) (d : String)
      → 0 < count d s.entering
      → acquire s.gate ≡ none
      → Step s (record s { entering = take_out d s.entering; leaving = d ∷ s.leaving })
  drained :
      (s : System) (d : String)
      → 0 < count d s.holding
      → Step s (record s {
        gate = drain s.gate;
        holding = take_out d s.holding;
        releasing = d ∷ s.releasing;
      })
  released :
      (s : System) (d : String)
      → 0 < count d s.releasing
      → Step s (record s { gate = leave d s.gate; releasing = take_out d s.releasing })
  gave_up :
      (s : System) (d : String)
      → 0 < count d s.leaving
      → Step s (record s { gate = leave d s.gate; leaving = take_out d s.leaving })

pub data Reach (s : System) : System → Type 0 where
  here : Reach s s
  next : {t u : System} → Reach s t → Step t u → Reach s u

-- The goroutines of a device that have entered and not left.
unfoldable pub inside : String → System → ℕ
inside d s = count d s.entering + count d s.holding + count d s.releasing + count d s.leaving

pub record IsFair (s : System) : Type 0 where
  pub accounted : (d : String) → count d s.gate.active ≡ inside d s
  pub single : (d : String) → count d s.gate.active ≤ 1
  pub tokens : s.gate.filled ≡ length s.holding
  pub bounded : s.gate.filled ≤ s.gate.max_global

count-take_out :
    (d e : String) (xs : List String)
    → 0 < count d xs
    → count e (take_out d xs) + (if str_eq d e then 1 else 0) ≡ count e xs
unfolding count take_out
count-take_out d e [] h = absurd (omega arith)
count-take_out d e (x ∷ xs) h =
    ground (arith, eq_iff x d, eq_iff x e, eq_iff d e, count-take_out d e xs)

length-take_out :
    (d : String) (xs : List String) → 0 < count d xs → length (take_out d xs) + 1 ≡ length xs
unfolding count take_out
length-take_out d [] h = absurd (omega arith)
length-take_out d (x ∷ xs) h = ground (arith, length-take_out d xs)

count-remove_all :
    (d e : String) (xs : List String)
    → count e (remove_all d xs) ≡ (if str_eq d e then 0 else count e xs)
unfolding count remove_all
count-remove_all d e [] = ground arith
count-remove_all d e (x ∷ xs) =
    ground (arith, eq_iff x d, eq_iff x e, eq_iff d e, count-remove_all d e xs)

count-contains : (d : String) (xs : List String) → contains d xs ≡ false → count d xs ≡ 0
unfolding count contains
count-contains d [] h = refl
count-contains d (x ∷ xs) h = ground (arith, count-contains d xs)

Step-IsFair : {s t : System} → Step s t → IsFair s → IsFair t
unfolding enter acquire drain leave inside count
Step-IsFair (entered s d g e) f = record {
  accounted = λ x. ground (arith, f.accounted x, eq_iff d x);
  single = λ x. ground (arith, f.single x, eq_iff d x, count-contains d s.gate.active);
  tokens = ground arith;
  bounded = ground arith;
}
Step-IsFair (acquired s d g h e) f = record {
  accounted = λ x. ground (arith, f.accounted x, count-take_out d x s.entering h);
  single = λ x. ground (arith, f.single x);
  tokens = ground arith;
  bounded = ground arith;
}
Step-IsFair (found_full s d h e) f = record {
  accounted = λ x. ground (arith, f.accounted x, count-take_out d x s.entering h);
  single = λ x. f.single x;
  tokens = f.tokens;
  bounded = f.bounded;
}
Step-IsFair (drained s d h) f = record {
  accounted = λ x. ground (arith, f.accounted x, count-take_out d x s.holding h);
  single = λ x. f.single x;
  tokens = ground (arith, length-take_out d s.holding h);
  bounded = ground arith;
}
Step-IsFair (released s d h) f = record {
  accounted = λ x. ground (
    arith,
    f.accounted x,
    f.single x,
    eq_iff d x,
    count-take_out d x s.releasing h,
    count-remove_all d x s.gate.active,
  );
  single = λ x. ground (arith, f.single x, count-remove_all d x s.gate.active);
  tokens = f.tokens;
  bounded = f.bounded;
}
Step-IsFair (gave_up s d h) f = record {
  accounted = λ x. ground (
    arith,
    f.accounted x,
    f.single x,
    eq_iff d x,
    count-take_out d x s.leaving h,
    count-remove_all d x s.gate.active,
  );
  single = λ x. ground (arith, f.single x, count-remove_all d x s.gate.active);
  tokens = f.tokens;
  bounded = f.bounded;
}

unfoldable pub start : ℕ → System
start max_global = record {
  gate = new_sync_gate max_global;
  entering = [];
  holding = [];
  releasing = [];
  leaving = [];
}

start-IsFair : (max_global : ℕ) → IsFair (start max_global)
unfolding start new_sync_gate inside count
start-IsFair max_global = record {
  accounted = λ x. omega arith;
  single = λ x. omega arith;
  tokens = refl;
  bounded = omega arith;
}

Reach-IsFair : {s t : System} → IsFair s → Reach s t → IsFair t
Reach-IsFair h here = h
Reach-IsFair h (next r st) = Step-IsFair st (Reach-IsFair h r)

max_global-Step : {s t : System} → Step s t → t.gate.max_global ≡ s.gate.max_global
unfolding enter acquire drain leave
max_global-Step (entered s d g e) = ground arith
max_global-Step (acquired s d g h e) = ground arith
max_global-Step (found_full s d h e) = refl
max_global-Step (drained s d h) = refl
max_global-Step (released s d h) = refl
max_global-Step (gave_up s d h) = refl

max_global-Reach : {s t : System} → Reach s t → t.gate.max_global ≡ s.gate.max_global
max_global-Reach here = refl
max_global-Reach (next r st) = max_global-Step st ∙ max_global-Reach r

-- However `begin` and the release functions interleave, from a new gate on at most `max_global`
-- syncs hold a place at once, and no device has two goroutines inside the gate.
pub sync_gate_exclusive :
    {s : System} (max_global : ℕ)
    → Reach (start max_global) s
    → (length s.holding ≤ max_global) × ((d : String) → inside d s ≤ 1)
sync_gate_exclusive {s} max_global r =
    let f : IsFair s = Reach-IsFair (start-IsFair max_global) r in
    let m : s.gate.max_global ≡ max_global =
      max_global-Reach r ∙ (unfold start new_sync_gate in refl) in
    (omega arith, λ d. omega (arith, f.accounted d, f.single d))

all_zero : (xs : List String) → ((d : String) → count d xs ≡ 0) → xs ≡ []
unfolding count
all_zero [] h = refl
all_zero (x ∷ xs) h = absurd (ground (arith, h x, eq_iff x x))

-- When every goroutine has left, the gate is as new: no device is active and no place is taken.
pub sync_gate_drains :
    {s : System} (max_global : ℕ)
    → Reach (start max_global) s
    → ((d : String) → inside d s ≡ 0)
    → s.gate ≡ new_sync_gate max_global
unfolding new_sync_gate inside
sync_gate_drains {s} max_global r quiet =
    let f : IsFair s = Reach-IsFair (start-IsFair max_global) r in
    let m : s.gate.max_global ≡ max_global = max_global-Reach r ∙ (unfold start in refl) in
    let none_active : s.gate.active ≡ [] = all_zero s.gate.active (λ d. f.accounted d ∙ quiet d) in
    let none_held : s.holding ≡ [] = all_zero s.holding (λ d. omega (arith, quiet d)) in
    ground arith
