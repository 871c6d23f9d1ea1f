-- ===== src/Limits/Window/Runs.antt =====
-- The quota of `windowLimiter.allow` over every sequence of calls
-- (internal/httpapi/agent_limits.go).
use mathlib.Core.Path.{subst}
use mathlib.Core.List.{append-nil}
use witshield.Base.{
  All, ◌∙◌, ℕ, ◌+◌, ◌≤◌, String, ◌≡◌, refl, inl, inr, Bool-cases, List, [], ◌∷◌, ◌++◌, str_eq,
  length, length-append, eq_iff, arith,
}
use witshield.Base.Dict.{lookup}
use witshield.Limits.Buckets.{alive, alive-append, length-alive_mono}
use witshield.Limits.Window.{WindowLimiter, time_of, allow, new_window_limiter}
use witshield.Limits.Window.Quota.{
  History, times, times-snoc, Tracks, noted, allow-Tracks, window-allow, admitted_few,
}

pub record Call : Type 0 where
  pub key : String
  pub now : ℕ
  pub limit : ℕ

-- The calls of `allow` in turn, with the history that they leave.
unfoldable pub run : WindowLimiter → History → List Call → WindowLimiter × History
run l h [] = (l, h)
run l h (c ∷ calls) =
    let (l', admitted) = allow c.key c.now c.limit l in run l' (noted h c.key c.now admitted) calls

-- The times do not decrease.
abbrev pub Ordered : ℕ → List Call → Type 0
Ordered s [] = Unit
Ordered s (c ∷ calls) = (s ≤ c.now) × Ordered c.now calls

abbrev pub last_time : ℕ → List Call → ℕ
last_time s [] = s
last_time s (c ∷ calls) = last_time c.now calls

record Within (n : ℕ) (l : WindowLimiter) (h : History) (now : ℕ) : Type 0 where
  tracks : Tracks l h now
  few : (k : String) (t : ℕ) → now ≤ t → length (alive time_of l.window t (times k h)) ≤ n

noted_few :
    (window n now : ℕ) (key : String) (h : History)
    → ((k : String) (t : ℕ) → now ≤ t → length (alive time_of window t (times k h)) ≤ n)
    → length (alive time_of window now (times key h)) + 1 ≤ n
    → (k : String) (t : ℕ) → now ≤ t
    → length (alive time_of window t (times k (h ++ ((key, now) ∷ [])))) ≤ n
noted_few window n now key h few below k t le = elim (Bool-cases (str_eq key k)) [
  | inl e ↦
      rw (times-snoc k key now h, e)
        (unfold alive in
          ground (
            arith,
            eq_iff key k,
            alive-append time_of window t (times k h) (now ∷ []),
            length-append (alive time_of window t (times k h)) (now ∷ []),
            length-append (alive time_of window t (times k h)) [],
            length-alive_mono time_of window now t (times k h) le,
          ))
  | inr e ↦ rw (times-snoc k key now h, e, append-nil) (few k t le)
]

allow-Within :
    {n : ℕ} {l : WindowLimiter} {h : History} {s : ℕ} (key : String) (now limit : ℕ)
    → s ≤ now
    → limit ≤ n
    → Within n l h s
    → Within n (allow key now limit l).0 (noted h key now (allow key now limit l).1) now
allow-Within {n} {l} {h} key now limit le small w = record {
  tracks = allow-Tracks key now limit le w.tracks;
  few = λ k t hu. rw (window-allow key now limit l) (elim (Bool-cases (allow key now limit l).1) [
    | inl e ↦ rw e (
        noted_few l.window n now key h (λ j u hj. w.few j u (omega arith))
          (omega (arith, admitted_few key now limit le w.tracks e)) k t hu)
    | inr e ↦ rw e (w.few k t (omega arith))
  ]);
}

run-Within :
    {n : ℕ} (calls : List Call) {s : ℕ} {l : WindowLimiter} {h : History}
    → Ordered s calls
    → All (λ c. c.limit ≤ n) calls
    → Within n l h s
    → Within n (run l h calls).0 (run l h calls).1 (last_time s calls)
unfolding run
run-Within [] o b w = w
run-Within (c ∷ calls) o b w = run-Within calls o.1 b.1 (allow-Within c.key c.now c.limit o.0 b.0 w)

pub window-run :
    (l : WindowLimiter) (h : History) (calls : List Call) → (run l h calls).0.window ≡ l.window
unfolding run
window-run l h [] = refl
window-run l h (c ∷ calls) =
    window-run (allow c.key c.now c.limit l).0 _ calls ∙ window-allow c.key c.now c.limit l

new-Within : (n window max_keys : ℕ) → Within n (new_window_limiter window max_keys) [] 0
unfolding new_window_limiter lookup times alive
new-Within n window max_keys = record {
  tracks = record { distinct = tt; same = λ k t le. refl };
  few = λ k t le. omega arith;
}

-- From a new limiter, after any calls of `allow` in the order of their times and with limits of at
-- most `n`, no window that ends at or after the last call holds more than `n` admitted calls of one
-- key.
pub window_quota :
    (n window max_keys : ℕ) (calls : List Call)
    → Ordered 0 calls
    → All (λ c. c.limit ≤ n) calls
    → (k : String) (t : ℕ) → last_time 0 calls ≤ t
    → length
        (alive time_of window t (times k (run (new_window_limiter window max_keys) [] calls).1))
      ≤ n
unfolding new_window_limiter
window_quota n window max_keys calls o b k t le =
    let l = new_window_limiter window max_keys in
    let w = run-Within {n = n} calls {s = 0} {l = l} {h = []} o b (new-Within n window max_keys) in
    subst (λ x. length (alive time_of x t (times k (run l [] calls).1)) ≤ n) (window-run l [] calls)
      (w.few k t le)
