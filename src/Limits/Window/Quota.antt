-- ===== src/Limits/Window/Quota.antt =====
-- `windowLimiter.allow` against the history of what it has admitted: the sliding window is exact
-- (internal/httpapi/agent_limits.go).
use mathlib.Core.List.{append-nil}
use witshield.Base.{
  ℕ, ◌+◌, ◌≤◌, ◌<◌, String, ◌≡◌, refl, inl, inr, Bool-cases, Bool, true, false, ◌||◌, List, [], ◌∷◌,
  ◌++◌, ltb, leb, ◌==◌, str_eq, if◌then◌else◌, length, eq_iff, arith,
}
use witshield.Base.Dict.{insert, Distinct, lookup-insert, insert-Distinct}
use witshield.Limits.Buckets.{
  alive, bucket, alive-alive, alive-append, bucket-maybe_sweep, maybe_sweep-Distinct,
}
use witshield.Limits.Window.{WindowLimiter, time_of, admit_key, sweep_all, has_room, allow}

-- What has been admitted, in order.
abbrev pub History : Type 0
History = List (String × ℕ)

unfoldable pub times : String → History → List ℕ
times key [] = []
times key ((k, at) ∷ h) = let rest = times key h in if str_eq k key then at ∷ rest else rest

pub times-snoc :
    (key k : String) (at : ℕ) (h : History)
    → times key (h ++ ((k, at) ∷ [])) ≡ times key h ++ (if str_eq k key then at ∷ [] else [])
unfolding times
times-snoc key k at [] = ground arith
times-snoc key k at ((j, a) ∷ h) = ground (arith, times-snoc key k at h)

-- From `now` on, the limiter and the history show the same attempts in every window.
pub record Tracks (l : WindowLimiter) (h : History) (now : ℕ) : Type 0 where
  pub distinct : Distinct l.attempts
  pub same :
      (k : String) (t : ℕ)
      → now ≤ t
      → alive time_of l.window t (bucket l.attempts k) ≡ alive time_of l.window t (times k h)

sweep_all-Tracks :
    {l : WindowLimiter} {h : History} {s : ℕ} (now : ℕ)
    → s ≤ now
    → Tracks l h s
    → Tracks (sweep_all now l) h now
unfolding sweep_all
sweep_all-Tracks {l} {h} now le t = record {
  distinct = maybe_sweep-Distinct time_of l.window l.last_sweep now l.attempts t.distinct;
  same = λ k u hu. ground (
    arith,
    bucket-maybe_sweep time_of l.window l.last_sweep now u k l.attempts t.distinct hu,
    t.same k u,
  );
}

abbrev pub noted : History → String → ℕ → Bool → History
noted h key now true = h ++ ((key, now) ∷ [])
noted h key now false = h

module _ {l : WindowLimiter} {h : History} (key : String) (now : ℕ) (t : Tracks l h now) where
  abbrev kept : List ℕ
  kept = alive time_of l.window now (bucket l.attempts key)

  -- A refused call stores the attempts that are still alive.
  refused_same :
      (k : String) (u : ℕ)
      → now ≤ u
      → alive time_of l.window u (bucket (insert key kept l.attempts) k)
        ≡ alive time_of l.window u (times k h)
  refused_same k u hu = elim (Bool-cases (str_eq key k)) [
    | inl e ↦
        rw (lookup-insert key k kept l.attempts, e)
          (ground (
            arith,
            eq_iff key k,
            alive-alive time_of l.window now u (bucket l.attempts key) hu,
            t.same k u hu,
          ))
    | inr e ↦ rw (lookup-insert key k kept l.attempts, e) (t.same k u hu)
  ]

  -- An admitted call stores its own time behind them.
  admitted_same :
      (k : String) (u : ℕ)
      → now ≤ u
      → alive time_of l.window u (bucket (insert key (kept ++ (now ∷ [])) l.attempts) k)
        ≡ alive time_of l.window u (times k (h ++ ((key, now) ∷ [])))
  admitted_same k u hu = elim (Bool-cases (str_eq key k)) [
    | inl e ↦
        rw (lookup-insert key k (kept ++ (now ∷ [])) l.attempts, times-snoc k key now h, e)
          (rw
            (
              alive-append time_of l.window u kept (now ∷ []),
              alive-append time_of l.window u (times k h) (now ∷ []),
            )
            (ground (
              arith,
              eq_iff key k,
              alive-alive time_of l.window now u (bucket l.attempts key) hu,
              t.same k u hu,
            )))
    | inr e ↦
        rw
          (
            lookup-insert key k (kept ++ (now ∷ [])) l.attempts,
            times-snoc k key now h,
            e,
            append-nil,
          )
          (t.same k u hu)
  ]

  admit_key-Tracks :
      (limit : ℕ)
      → Tracks (admit_key key now limit l).0 (noted h key now (admit_key key now limit l).1) now
  unfolding admit_key
  admit_key-Tracks limit = elim (Bool-cases (leb limit (length kept))) [
    | inl e ↦
        rw e (record {
          distinct = insert-Distinct key kept l.attempts t.distinct;
          same = refused_same;
        })
    | inr e ↦ rw e (record {
      distinct = insert-Distinct key (kept ++ (now ∷ [])) l.attempts t.distinct;
      same = admitted_same;
    })
  ]

later-Tracks :
    {l : WindowLimiter} {h : History} {s : ℕ} (now : ℕ) → s ≤ now → Tracks l h s → Tracks l h now
later-Tracks now le t = record { distinct = t.distinct; same = λ k u hu. t.same k u (omega arith) }

-- One call, at a time that is not before the last.
pub allow-Tracks :
    {l : WindowLimiter} {h : History} {s : ℕ} (key : String) (now limit : ℕ)
    → s ≤ now
    → Tracks l h s
    → Tracks (allow key now limit l).0 (noted h key now (allow key now limit l).1) now
unfolding allow
allow-Tracks {l} {h} key now limit le t = elim (Bool-cases (str_eq key "" || limit == 0)) [
  | inl e ↦ rw e (later-Tracks now le t)
  | inr e ↦ rw e (
      let swept : Tracks (sweep_all now l) h now = sweep_all-Tracks now le t in
      elim (Bool-cases (has_room key (sweep_all now l))) [
        | inl room ↦ rw room (admit_key-Tracks key now swept limit)
        | inr full ↦ rw full swept
      ])
]

window-sweep_all : (now : ℕ) (l : WindowLimiter) → (sweep_all now l).window ≡ l.window
unfolding sweep_all
window-sweep_all now l = refl

admit_key-count :
    {l : WindowLimiter} {h : History} (key : String) (now limit : ℕ)
    → Tracks l h now
    → (admit_key key now limit l).1 ≡ ltb (length (alive time_of l.window now (times key h))) limit
unfolding admit_key
admit_key-count {l} {h} key now limit t = ground (
  arith,
  t.same key now (omega arith),
  alive-alive time_of l.window now now (bucket l.attempts key) (omega arith),
)

-- A call with a key and a positive limit, for which the swept map has room, is admitted exactly
-- when fewer than `limit` of the calls that were admitted for this key are in the window.
pub allow-count :
    {l : WindowLimiter} {h : History} {s : ℕ} (key : String) (now limit : ℕ)
    → s ≤ now
    → Tracks l h s
    → str_eq key "" ≡ false
    → 0 < limit
    → has_room key (sweep_all now l) ≡ true
    → (allow key now limit l).1 ≡ ltb (length (alive time_of l.window now (times key h))) limit
unfolding allow
allow-count {l} {h} key now limit le t named positive room =
    let swept : Tracks (sweep_all now l) h now = sweep_all-Tracks now le t in
    ground (arith, window-sweep_all now l, admit_key-count key now limit swept)

pub window-allow :
    (key : String) (now limit : ℕ) (l : WindowLimiter) → (allow key now limit l).0.window ≡ l.window
unfolding allow admit_key
window-allow key now limit l = ground (arith, window-sweep_all now l)

-- An admitted call was below its limit.
pub admitted_few :
    {l : WindowLimiter} {h : History} {s : ℕ} (key : String) (now limit : ℕ)
    → s ≤ now
    → Tracks l h s
    → (allow key now limit l).1 ≡ true
    → length (alive time_of l.window now (times key h)) + 1 ≤ limit
unfolding allow
admitted_few {l} {h} key now limit le t =
    let swept : Tracks (sweep_all now l) h now = sweep_all-Tracks now le t in
    ground (arith, window-sweep_all now l, admit_key-count key now limit swept)
