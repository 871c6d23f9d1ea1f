-- ===== src/Helper/Server/Recorded.antt =====
-- How an action under a receipt ends (cmd/witshield-helper/main.go, receipt_cache.go).
use mathlib.Core.Path.{subst}
use witshield.Base.{
  String, ◌≡◌, ◌≢◌, refl, sym, ap, ◌⊎◌, inl, inr, str_eq, eq_iff, Bool-cases, arith,
}
use witshield.Base.Dict.{Distinct}
use witshield.Engine.Types.{Receipt, Library}
use witshield.Helper.Files.{File, Directory, Codec, ReceiptCache}
use witshield.Helper.Capacity.{ok}
use witshield.Helper.Capacity.Retention.{Outcome-cases}
use witshield.Helper.Receipts.{Identity, Loaded, absent, cached, unusable, path, load, begin, save}
use witshield.Helper.Receipts.Replay.{
  IsStarted, Present, load-Present, begin-Distinct, begin-IsStarted, begin-stored, save-Distinct,
  save-IsStarted, save-Present,
}
use witshield.Helper.Server.{
  Server, World, Circumstances, response_of, run_engine, save_receipt, run_recorded,
}

Loaded-cases : (x : Loaded) → (x ≡ absent) ⊎ (x ≢ absent)
Loaded-cases absent = inl refl
Loaded-cases (cached r) = inr (λ e. cc)
Loaded-cases (unusable m) = inr (λ e. cc)

pub IsStarted-Present :
    (c : Codec) (p : String) (f : File) (entries : Directory)
    → IsStarted c p f entries
    → Present p entries
IsStarted-Present c p f entries h e = ground (arith, h.stored)

module _ {H : Type 0} (l : Library) (c : Codec) (s : Server H) where
  module _ (cache : ReceiptCache) (o : Circumstances) (actor : String) (i : Identity)
      (w : World H) where
    -- What is left of the directory when the action has run.
    saved : (receipt : Receipt) → Directory
    saved receipt =
        (save c cache o.at_save i (response_of receipt) (begin c cache o.at_begin i w.entries).0).0

    -- How a recorded action ends: turned away, or not started, or run and saved.
    abbrev Ending : World H → Type 0
    Ending w' =
        (w' ≡ w)
        ⊎ ((load c o.at_load i w.entries ≡ absent)
            × (w'.host ≡ w.host)
            × (w'.entries ≡ (begin c cache o.at_begin i w.entries).0))
        ⊎ ((load c o.at_load i w.entries ≡ absent)
            × ((begin c cache o.at_begin i w.entries).1 ≡ ok tt)
            × (receipt : Receipt) × (w'.entries ≡ saved receipt))

    run_recorded-Ending : Ending (run_recorded l c s cache o actor i w).0
    unfolding run_recorded save_receipt saved
    run_recorded-Ending = elim (Loaded-cases (load c o.at_load i w.entries)) [
      | inr there ↦ inl (ground arith)
      | inl fresh ↦ elim (Outcome-cases (begin c cache o.at_begin i w.entries).1) [
        | inr (e, bad) ↦ inr (inl (fresh, ground arith, ground arith))
        | inl (u, good) ↦
            inr (inr (fresh, good, (run_engine l c s o.receipt_id actor i w.host).1, ground arith))
      ]
    ]

    -- A receipt that is there keeps the engine away, and nothing changes.
    pub recorded-Present :
        Present (path c i.attempt_id) w.entries → (run_recorded l c s cache o actor i w).0 ≡ w
    recorded-Present present = elim run_recorded-Ending [
      | inl e ↦ e
      | inr (inl (fresh, _, _)) ↦ absurd (load-Present c o.at_load i w.entries present fresh)
      | inr (inr (fresh, _, _, _)) ↦ absurd (load-Present c o.at_load i w.entries present fresh)
    ]

    begun : Distinct w.entries → Distinct (begin c cache o.at_begin i w.entries).0
    begun d = begin-Distinct c cache o.at_begin i w.entries d

    saved-Distinct : (receipt : Receipt) → Distinct w.entries → Distinct (saved receipt)
    unfolding saved
    saved-Distinct receipt d = save-Distinct c cache o.at_save i _ (response_of receipt) (begun d)

    pub recorded-Distinct :
        Distinct w.entries → Distinct (run_recorded l c s cache o actor i w).0.entries
    recorded-Distinct d = elim run_recorded-Ending [
      | inl e ↦ subst (λ x. Distinct x.entries) (sym e) d
      | inr (inl (_, _, e)) ↦ subst (λ x. Distinct x) (sym e) (begun d)
      | inr (inr (_, _, receipt, e)) ↦ subst (λ x. Distinct x) (sym e) (saved-Distinct receipt d)
    ]

    saved-IsStarted :
        (receipt : Receipt)
        → Distinct w.entries
        → (p : String) (f : File) → p ≢ path c i.attempt_id
        → IsStarted c p f w.entries
        → IsStarted c p f (saved receipt)
    unfolding saved
    saved-IsStarted receipt d p f other h =
        save-IsStarted c cache o.at_save i _ (response_of receipt) (begun d) p f other
          (begin-IsStarted c cache o.at_begin i w.entries d p f other h)

    pub recorded-IsStarted :
        Distinct w.entries
        → (p : String) (f : File) → IsStarted c p f w.entries
        → IsStarted c p f (run_recorded l c s cache o actor i w).0.entries
    recorded-IsStarted d p f h = elim (Bool-cases (str_eq p (path c i.attempt_id))) [
      | inl same ↦
          subst (λ x. IsStarted c p f x.entries)
            (sym (
              recorded-Present (
                subst (λ x. Present x w.entries) ((eq_iff p (path c i.attempt_id)).0 same)
                  (λ e. ground (arith, h.stored)))))
            h
      | inr differs ↦
          let other : p ≢ path c i.attempt_id =
            λ e. ground (arith, eq_iff p (path c i.attempt_id)) in
          elim run_recorded-Ending [
            | inl e ↦ subst (λ x. IsStarted c p f x.entries) (sym e) h
            | inr (inl (_, _, e)) ↦
                subst (λ x. IsStarted c p f x) (sym e)
                  (begin-IsStarted c cache o.at_begin i w.entries d p f other h)
            | inr (inr (_, _, receipt, e)) ↦
                subst (λ x. IsStarted c p f x) (sym e) (saved-IsStarted receipt d p f other h)
          ]
    ]

    saved-Present :
        (receipt : Receipt)
        → Distinct w.entries
        → (begin c cache o.at_begin i w.entries).1 ≡ ok tt
        → Present (path c i.attempt_id) (saved receipt)
    unfolding saved
    saved-Present receipt d good =
        save-Present c cache o.at_save i _ (response_of receipt) (begun d)
          (begin-stored c cache o.at_begin i w.entries good)

    -- Where the host has changed, the attempt has a receipt.
    pub recorded_once :
        Distinct w.entries
        → ((run_recorded l c s cache o actor i w).0.host ≡ w.host)
          ⊎ Present (path c i.attempt_id) (run_recorded l c s cache o actor i w).0.entries
    recorded_once d = elim run_recorded-Ending [
      | inl e ↦ inl (ap (λ x. x.host) e)
      | inr (inl (_, e, _)) ↦ inl e
      | inr (inr (_, good, receipt, e)) ↦
          inr (subst (λ x. Present (path c i.attempt_id) x) (sym e) (saved-Present receipt d good))
    ]
