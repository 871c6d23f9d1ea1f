-- ===== src/Actions/Stop/Grants.antt =====
-- The stop stays in the grants of its device (internal/store/settings_actions_defense.go).
use witshield.Base.{
  ◌⊎◌, ℕ, String, Bool, true, false, ◌≡◌, ◌≢◌, refl, sym, ap, ◌∙◌, inl, inr, Option, none, some,
  List, str_eq, eq_iff, if◌then◌else◌, Bool-cases, Option-cases, arith,
}
use witshield.Base.Dict.{insert, lookup-insert}
use witshield.Defense.Correlator.{DefensePolicy}
use witshield.Actions.Tables.{GrantRow}
use witshield.Actions.Statement.{first_where}
use witshield.Actions.Statement.Find.{
  or_else, updated, first_where-update, first_where-append, first_where-holds,
}
use witshield.Actions.Policy.{put_at, is_grant, put_grant, stop_all, bruteforce_grant}
use witshield.Actions.Stop.{AllStopped, IsStopped, true_ne_false}

module _ (device_id : String) where
  AllStopped-stop :
      (now : ℕ) (rows : List GrantRow) → AllStopped device_id (stop_all device_id true now rows)
  unfolding is_grant
  AllStopped-stop now rows capability g found =
      let through =
        first_where-update (is_grant device_id capability) (λ g. str_eq g.device_id device_id)
          (λ g. record g { emergency_stop = true; updated_at = now }) rows (λ _ _. refl) in
      elim (Option-cases (first_where (is_grant device_id capability) rows)) [
        | inl e ↦ ground arith
        | inr (h, e) ↦ ground (arith, first_where-holds (is_grant device_id capability) rows e)
      ]

  not_of_device :
      (capability : String) (g : GrantRow)
      → str_eq g.device_id device_id ≡ false
      → is_grant device_id capability g ≡ false
  unfolding is_grant
  not_of_device capability g h = ground arith

  -- Two grants of different devices are not matched by one key.
  other_grant :
      (capability : String) (g r : GrantRow)
      → str_eq g.device_id device_id ≡ false
      → is_grant g.device_id g.capability r ≡ true
      → is_grant device_id capability r ≡ false
  unfolding is_grant
  other_grant capability g r h e = ground (
    arith,
    eq_iff g.device_id device_id,
    eq_iff r.device_id device_id,
    eq_iff r.device_id g.device_id,
  )

  find-put_grant :
      (capability : String) (g : GrantRow) (rows : List GrantRow)
      → str_eq g.device_id device_id ≡ false
      → first_where (is_grant device_id capability) (put_grant g rows)
        ≡ first_where (is_grant device_id capability) rows
  unfolding put_grant
  find-put_grant capability g rows other =
      let key = is_grant device_id capability in
      let mine = is_grant g.device_id g.capability in
      let away = not_of_device capability g other in
      elim (Option-cases (first_where mine rows)) [
        | inl e ↦
            ap (λ o. first_where key (put_at o g rows)) e
            ∙ first_where-append key rows g
            ∙ ground (arith, away)
        | inr (h, e) ↦
            ap (λ o. first_where key (put_at o g rows)) e
            ∙ first_where-update key mine (λ _. g) rows
                (λ r m. away ∙ sym (other_grant capability g r other m))
            ∙ kept (first_where key rows) (λ r f. first_where-holds key rows f)
      ]
    where
      kept :
          (o : Option GrantRow)
          → ((r : GrantRow) → o ≡ some r → is_grant device_id capability r ≡ true)
          → updated (is_grant g.device_id g.capability) (λ _. g) o ≡ o
      kept none h = refl
      kept (some r) h = elim (Bool-cases (is_grant g.device_id g.capability r)) [
        | inl m ↦ absurd (true_ne_false (sym (h r refl) ∙ other_grant capability g r other m))
        | inr m ↦ ap some (ap (λ b. if b then g else r) m)
      ]

  find-stop_all :
      (capability other : String) (b : Bool) (now : ℕ) (rows : List GrantRow)
      → str_eq other device_id ≡ false
      → first_where (is_grant device_id capability) (stop_all other b now rows)
        ≡ first_where (is_grant device_id capability) rows
  unfolding is_grant
  find-stop_all capability other b now rows h =
      let through =
        first_where-update (is_grant device_id capability) (λ g. str_eq g.device_id other)
          (λ g. record g { emergency_stop = b; updated_at = now }) rows (λ _ _. refl) in
      elim (Option-cases (first_where (is_grant device_id capability) rows)) [
        | inl e ↦ ground arith
        | inr (g, e) ↦ ground (
          arith,
          first_where-holds (is_grant device_id capability) rows e,
          eq_iff g.device_id device_id,
          eq_iff g.device_id other,
          eq_iff other device_id,
        )
      ]

  same_key :
      (capability : String) (g r : GrantRow)
      → is_grant g.device_id g.capability r ≡ true
      → is_grant device_id capability g ≡ is_grant device_id capability r
  unfolding is_grant
  same_key capability g r h =
      let device : r.device_id ≡ g.device_id = ground (arith, eq_iff r.device_id g.device_id) in
      let name : r.capability ≡ g.capability = ground (arith, eq_iff r.capability g.capability) in
      rw (device, name) refl

  -- A grant that carries the stop, or is of another device, lifts no stop.
  pub AllStopped-put_grant :
      (g : GrantRow) (rows : List GrantRow)
      → (g.device_id ≡ device_id → g.emergency_stop ≡ true)
      → AllStopped device_id rows
      → AllStopped device_id (put_grant g rows)
  unfolding put_grant
  AllStopped-put_grant g rows stays all capability x found =
      elim (Bool-cases (str_eq g.device_id device_id)) [
        | inr e ↦ all capability x (sym (find-put_grant capability g rows e) ∙ found)
        | inl e ↦
            let stop : g.emergency_stop ≡ true = stays ((eq_iff g.device_id device_id).0 e) in
            elim (Option-cases (first_where mine rows)) [
              | inl f ↦
                  let read =
                    sym (
                      ap (λ o. first_where key (put_at o g rows)) f ∙ first_where-append key rows g)
                    ∙ found in
                  appended stop (first_where key rows) (key g) (all capability) read
              | inr (h, f) ↦
                  let read : updated mine (λ _. g) (first_where key rows) ≡ some x =
                    sym (
                      ap (λ o. first_where key (put_at o g rows)) f
                      ∙ first_where-update key mine (λ _. g) rows
                          (λ r m. same_key capability g r m))
                    ∙ found in
                  replaced stop (first_where key rows) (all capability) read
            ]
      ]
    where
      key : GrantRow → Bool
      key = is_grant device_id capability

      mine : GrantRow → Bool
      mine = is_grant g.device_id g.capability

      appended :
          g.emergency_stop ≡ true
          → (o : Option GrantRow) (b : Bool)
          → ((r : GrantRow) → o ≡ some r → r.emergency_stop ≡ true)
          → or_else o (if b then some g else none) ≡ some x
          → x.emergency_stop ≡ true
      appended stop (some r) b old h = old x h
      appended stop none true old h = ground arith
      appended stop none false old h = cc

      replaced :
          g.emergency_stop ≡ true
          → (o : Option GrantRow) → ((r : GrantRow) → o ≡ some r → r.emergency_stop ≡ true)
          → updated mine (λ _. g) o ≡ some x
          → x.emergency_stop ≡ true
      replaced stop none old h = cc
      replaced stop (some r) old h = elim (Bool-cases (mine r)) [
        | inl m ↦ ground arith
        | inr m ↦ old x (ground arith)
      ]

  pub AllStopped-put :
      (d : String) (p : DefensePolicy) (now : ℕ) (grants : List GrantRow)
      → (d ≡ device_id → p.emergency_stop ≡ true)
      → ((d ≡ device_id) ⊎ AllStopped device_id grants)
      → AllStopped device_id
          (stop_all d p.emergency_stop now (put_grant (bruteforce_grant d p now) grants))
  AllStopped-put d p now grants stays before = elim (Bool-cases (str_eq d device_id)) [
    | inl e ↦
        let same : d ≡ device_id = ground (arith, eq_iff d device_id) in
        rw (same, stays same) (AllStopped-stop now _)
    | inr e ↦ λ capability g found.
        let apart : d ≢ device_id = λ h. ground (arith, eq_iff d device_id) in
        let source : (bruteforce_grant d p now).device_id ≡ d = bruteforce_grant-device d p now in
        let unchanged =
          find-stop_all capability d p.emergency_stop now _ e
          ∙ find-put_grant capability (bruteforce_grant d p now) grants
              (ap (λ x. str_eq x device_id) source ∙ e) in
        elim before [
          | inl h ↦ absurd (apart h)
          | inr all ↦ all capability g (sym unchanged ∙ found)
        ]
  ]
    where
      bruteforce_grant-device :
          (d : String) (p : DefensePolicy) (now : ℕ) → (bruteforce_grant d p now).device_id ≡ d
      bruteforce_grant-device d p now = unfold bruteforce_grant in refl

  pub IsStopped-put :
      (d : String) (p : DefensePolicy) (policies : List (String × DefensePolicy))
      → (d ≡ device_id → p.emergency_stop ≡ true)
      → ((d ≡ device_id) ⊎ IsStopped device_id policies)
      → IsStopped device_id (insert d p policies)
  IsStopped-put d p policies stays before = elim (Bool-cases (str_eq d device_id)) [
    | inl e ↦
        let same : d ≡ device_id = ground (arith, eq_iff d device_id) in
        (p, ground (arith, lookup-insert d device_id p policies), stays same)
    | inr e ↦ elim before [
      | inl h ↦ absurd (true_ne_false (sym (ground (arith, eq_iff d device_id)) ∙ e))
      | inr (q, stored, stop) ↦ (q, ground (arith, lookup-insert d device_id p policies), stop)
    ]
  ]
