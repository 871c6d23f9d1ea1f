-- ===== src/Limits/SyncGate.antt =====
-- `syncGate` of internal/httpapi/agent_limits.go: its state, and the atomic parts of `begin` and of
-- the release function that `begin` returns. Other goroutines run between two parts.
pub mod Interleaving
use witshield.Base.{
  ℕ, zero, suc, ◌+◌, ◌-◌, String, Bool, true, false, Option, none, some, List, [], ◌∷◌, ltb, leb,
  str_eq, if◌then◌else◌,
}

-- The keys of `active`, and the filled and the total places of the channel `global`.
pub record SyncGate : Type 0 where
  pub active : List String
  pub filled : ℕ
  pub max_global : ℕ

unfoldable pub new_sync_gate : ℕ → SyncGate
new_sync_gate max_global = record { active = []; filled = 0; max_global = max_global }

unfoldable pub contains : String → List String → Bool
contains d [] = false
contains d (x ∷ xs) = let rest = contains d xs in if str_eq x d then true else rest

-- delete(g.active, deviceID)
unfoldable pub remove_all : String → List String → List String
remove_all d [] = []
remove_all d (x ∷ xs) = let rest = remove_all d xs in if str_eq x d then rest else x ∷ rest

-- The first critical section of `begin`: none where the device is active already.
unfoldable pub enter : String → SyncGate → Option SyncGate
unfolding contains
enter d g = if contains d g.active then none else some (record g { active = d ∷ g.active })

-- The `select` of `begin`: none is its default case.
unfoldable pub acquire : SyncGate → Option SyncGate
acquire g = if ltb g.filled g.max_global then some (record g { filled = g.filled + 1 }) else none

-- The receive of the release function, with a token in the channel.
unfoldable pub drain : SyncGate → SyncGate
drain g = record g { filled = g.filled - 1 }

-- The last critical section of the release function, and of a `begin` that found the channel full.
unfoldable pub leave : String → SyncGate → SyncGate
unfolding remove_all
leave d g = record g { active = remove_all d g.active }

pub data Outcome : Type 0 where
  admitted : Outcome
  busy_device : Outcome
  busy_global : Outcome

-- `begin` with no other goroutine in between.
unfoldable pub begin : String → SyncGate → SyncGate × Outcome
unfolding enter acquire leave
begin d g = elim (enter d g) [
  | none ↦ (g, busy_device)
  | some entered ↦ elim (acquire entered) [
    | none ↦ (leave d entered, busy_global)
    | some taken ↦ (taken, admitted)
  ]
]

-- The release function with no other goroutine in between.
unfoldable pub release : String → SyncGate → SyncGate
unfolding drain leave
release d g = leave d (drain g)
