-- ===== src/Limits/Buckets.antt =====
-- The map of attempts that both limiters of internal/httpapi/agent_limits.go keep: the attempts
-- alive in the window, the sweep, and what they do to a bucket. A limiter's attempt is a value with
-- a time in nanoseconds.
use witshield.Base.{
  ℕ, ◌+◌, ◌*◌, ◌≤◌, String, ◌≡◌, refl, Bool, true, Option, none, some, List, [], ◌∷◌, ◌++◌, ltb,
  leb, str_eq, if◌then◌else◌, length, eq_iff, arith,
}
use witshield.Base.Dict.{
  lookup, insert, delete, Distinct, lookup-insert, lookup-delete, insert-Distinct, delete-Distinct,
}

abbrev pub minute : ℕ
minute = 60 * 1000000000

-- `attempt.After(now.Add(-window))`, where the subtraction may pass below 0.
abbrev pub is_alive : ℕ → ℕ → ℕ → Bool
is_alive window now at = ltb now (at + window)

-- `l.lastSweep.IsZero() || now.Sub(l.lastSweep) >= time.Minute`
unfoldable pub sweep_due : Option ℕ → ℕ → Bool
sweep_due none now = true
sweep_due (some last) now = leb (last + minute) now

module _ {A : Type 0} (at : A → ℕ) (window : ℕ) where
  -- The loops that keep the attempts after `cut`.
  unfoldable pub alive : ℕ → List A → List A
  alive now [] = []
  alive now (a ∷ rest) =
      let kept = alive now rest in if is_alive window now (at a) then a ∷ kept else kept

  -- `delete` for an empty list, else the write.
  unfoldable pub put_or_delete : String → List A → List (String × List A) → List (String × List A)
  put_or_delete key [] m = delete key m
  put_or_delete key (a ∷ rest) m = insert key (a ∷ rest) m

  keep_alive : String → List A → List (String × List A) → List (String × List A)
  keep_alive key [] m = m
  keep_alive key (a ∷ rest) m = (key, a ∷ rest) ∷ m

  -- The sweep over all keys.
  unfoldable pub sweep : ℕ → List (String × List A) → List (String × List A)
  unfolding alive keep_alive
  sweep now [] = []
  sweep now ((key, attempts) ∷ m) = keep_alive key (alive now attempts) (sweep now m)

  unfoldable pub maybe_sweep : Option ℕ → ℕ → List (String × List A) → List (String × List A)
  unfolding sweep sweep_due
  maybe_sweep last now m = if sweep_due last now then sweep now m else m

-- `l.attempts[key]`, which is empty for a missing key.
abbrev pub or_empty {ℓ} : {A : Type ℓ} → Option (List A) → List A
or_empty none = []
or_empty (some xs) = xs

abbrev pub bucket {ℓ} : {A : Type ℓ} → List (String × List A) → String → List A
bucket m key = or_empty (lookup key m)

module _ {A : Type 0} (at : A → ℕ) (window : ℕ) where
  -- What is alive later was alive before.
  pub alive-alive :
      (s t : ℕ) (xs : List A)
      → s ≤ t
      → alive at window t (alive at window s xs) ≡ alive at window t xs
  unfolding alive
  alive-alive s t [] h = refl
  alive-alive s t (a ∷ xs) h = ground (arith, alive-alive s t xs h)

  pub alive-append :
      (t : ℕ) (xs ys : List A)
      → alive at window t (xs ++ ys) ≡ alive at window t xs ++ alive at window t ys
  unfolding alive
  alive-append t [] ys = refl
  alive-append t (a ∷ xs) ys = ground (arith, alive-append t xs ys)

  lookup-sweep-none :
      (now : ℕ) (k : String) (m : List (String × List A))
      → lookup k m ≡ none
      → lookup k (sweep at window now m) ≡ none
  unfolding sweep lookup
  lookup-sweep-none now k [] h = refl
  lookup-sweep-none now k ((j, xs) ∷ m) h = ground (arith, lookup-sweep-none now k m)

  pub bucket-sweep :
      (now : ℕ) (k : String) (m : List (String × List A))
      → Distinct m
      → bucket (sweep at window now m) k ≡ alive at window now (bucket m k)
  unfolding sweep lookup alive
  bucket-sweep now k [] d = refl
  bucket-sweep now k ((j, xs) ∷ m) d =
      ground (arith, eq_iff j k, bucket-sweep now k m d.1, lookup-sweep-none now j m d.0)

  pub sweep-Distinct :
      (now : ℕ) (m : List (String × List A)) → Distinct m → Distinct (sweep at window now m)
  unfolding sweep
  sweep-Distinct now [] d = d
  sweep-Distinct now ((j, xs) ∷ m) d =
      ground (arith, lookup-sweep-none now j m d.0, sweep-Distinct now m d.1)

  -- The sweep changes nothing that a later window can show.
  pub bucket-maybe_sweep :
      (last : Option ℕ) (now t : ℕ) (k : String) (m : List (String × List A))
      → Distinct m
      → now ≤ t
      → alive at window t (bucket (maybe_sweep at window last now m) k)
        ≡ alive at window t (bucket m k)
  unfolding maybe_sweep
  bucket-maybe_sweep last now t k m d h =
      ground (arith, bucket-sweep now k m d, alive-alive now t (bucket m k) h)

  pub maybe_sweep-Distinct :
      (last : Option ℕ) (now : ℕ) (m : List (String × List A))
      → Distinct m
      → Distinct (maybe_sweep at window last now m)
  unfolding maybe_sweep
  maybe_sweep-Distinct last now m d = ground (arith, sweep-Distinct now m d)

  pub length-alive_mono :
      (s t : ℕ) (xs : List A)
      → s ≤ t
      → length (alive at window t xs) ≤ length (alive at window s xs)
  unfolding alive
  length-alive_mono s t [] h = omega arith
  length-alive_mono s t (a ∷ xs) h = ground (arith, length-alive_mono s t xs h)

  pub bucket-put_or_delete :
      (key k : String) (xs : List A) (m : List (String × List A))
      → bucket (put_or_delete at window key xs m) k ≡ (if str_eq key k then xs else bucket m k)
  unfolding put_or_delete
  bucket-put_or_delete key k [] m = ground (arith, lookup-delete key k m)
  bucket-put_or_delete key k (a ∷ xs) m = ground (arith, lookup-insert key k (a ∷ xs) m)

  pub put_or_delete-Distinct :
      (key : String) (xs : List A) (m : List (String × List A))
      → Distinct m
      → Distinct (put_or_delete at window key xs m)
  unfolding put_or_delete
  put_or_delete-Distinct key [] m d = delete-Distinct key m d
  put_or_delete-Distinct key (a ∷ xs) m d = insert-Distinct key (a ∷ xs) m d

  pub bucket-insert :
      (key k : String) (xs : List A) (m : List (String × List A))
      → bucket (insert key xs m) k ≡ (if str_eq key k then xs else bucket m k)
  bucket-insert key k xs m = ground (arith, lookup-insert key k xs m)
