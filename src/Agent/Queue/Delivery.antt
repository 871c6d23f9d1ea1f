-- ===== src/Agent/Queue/Delivery.antt =====
-- That a flush loses no queued request (internal/agent/queue.go).
use mathlib.Core.Path.{subst}
use witshield.Base.{
  String, ◌≡◌, ◌≢◌, refl, sym, ap, ◌∙◌, ◌⊎◌, inl, inr, true, Option, none, some, List, [], ◌∷◌,
  ◌++◌, str_eq, eq_iff, Bool-cases, Option-cases, arith,
}
use witshield.Base.Dict.{lookup, delete, lookup-delete}
use witshield.Agent.Queue.{
  QueuedRequest, Entry, Directory, Codec, Post, Outside, World, files, post_of, settles, open_item,
  send, flush_one, flush_all, flush,
}

pub append_assoc : {A : Type 0} (xs ys zs : List A) → (xs ++ ys) ++ zs ≡ xs ++ (ys ++ zs)
append_assoc [] ys zs = refl
append_assoc (x ∷ xs) ys zs = ap (λ l. x ∷ l) (append_assoc xs ys zs)

pub append_nil : {A : Type 0} (xs : List A) → xs ++ [] ≡ xs
append_nil [] = refl
append_nil (x ∷ xs) = ap (λ l. x ∷ l) (append_nil xs)

module _ (c : Codec) (o : Outside) where
  -- The request of the file was sent, after what is in `before`, and the answer ended it.
  pub record Settled (e : Entry) (sent : List Post) : Type 0 where
    pub item : QueuedRequest
    pub post : Post
    pub before : List Post
    pub after : List Post
    pub decoded : c.decode e.content ≡ some item
    pub valid : post_of c item ≡ some post
    pub logged : sent ≡ before ++ (post ∷ after)
    pub answered : settles c item (o.controller before post) ≡ true

  Settled-append : (e : Entry) (sent more : List Post) → Settled e sent → Settled e (sent ++ more)
  Settled-append e sent more s = record {
    item = s.item;
    post = s.post;
    before = s.before;
    after = s.after ++ more;
    decoded = s.decoded;
    valid = s.valid;
    logged = ap (λ x. x ++ more) s.logged ∙ append_assoc s.before (s.post ∷ s.after) more;
    answered = s.answered;
  }

  -- How one round ends: the item stays, or it is settled and removed.
  abbrev pub Round : String → World → World × Option String → Type 0
  Round name w r =
      ((r.0.entries ≡ w.entries) × (r.1 ≢ none) × (more : List Post) × (r.0.sent ≡ w.sent ++ more))
      ⊎ ((item : QueuedRequest) × (post : Post) × (open_item c o name w.entries ≡ some (item, post))
          × (settles c item (o.controller w.sent post) ≡ true)
          × (r.0.entries ≡ delete name w.entries)
          × (r.0.sent ≡ w.sent ++ (post ∷ [])))

  send-Round :
      (name : String) (w : World) (item : QueuedRequest) (post : Post)
      → open_item c o name w.entries ≡ some (item, post)
      → Round name w (send c o name item post w)
  unfolding send
  send-Round name w item post h = elim (Bool-cases (settles c item (o.controller w.sent post))) [
    | inr e ↦ inl (ground arith, (λ x. ground arith), post ∷ [], ground arith)
    | inl settled ↦ elim (Bool-cases (o.remove_ok name)) [
      | inr e ↦ inl (ground arith, (λ x. ground arith), post ∷ [], ground arith)
      | inl removed ↦ inr (item, post, h, settled, ground arith, ground arith)
    ]
  ]

  pub flush_one-Round : (name : String) (w : World) → Round name w (flush_one c o name w)
  unfolding flush_one
  flush_one-Round name w = elim (Bool-cases (o.cancelled w.sent)) [
    | inl e ↦ inl (ground arith, (λ x. ground arith), [], ground (arith, append_nil w.sent))
    | inr live ↦ elim (Option-cases (open_item c o name w.entries)) [
      | inl e ↦ inl (ground arith, (λ x. ground arith), [], ground (arith, append_nil w.sent))
      | inr ((item, post), e) ↦ subst (Round name w) (ground arith) (send-Round name w item post e)
    ]
  ]

  -- The loop goes on from what the round left, or ends with it.
  abbrev pub Next : String → List String → World → Type 0
  Next name rest w =
      (((flush_one c o name w).1 ≡ none)
        × (flush_all c o (name ∷ rest) w ≡ flush_all c o rest (flush_one c o name w).0))
      ⊎ (((flush_one c o name w).1 ≢ none)
          × ((flush_all c o (name ∷ rest) w).0 ≡ (flush_one c o name w).0)
          × ((flush_all c o (name ∷ rest) w).1 ≢ none))

  pub flush_all-Next : (name : String) (rest : List String) (w : World) → Next name rest w
  unfolding flush_all
  flush_all-Next name rest w = elim (Option-cases (flush_one c o name w).1) [
    | inl e ↦ inl (e, ground arith)
    | inr (m, e) ↦ inr ((λ x. ground arith), ground arith, (λ x. ground arith))
  ]

  -- What was sent stays in front.
  flush_one-sent :
      (name : String) (w : World)
      → (more : List Post) × ((flush_one c o name w).0.sent ≡ w.sent ++ more)
  flush_one-sent name w = elim (flush_one-Round name w) [
    | inl (_, _, more, e) ↦ (more, e)
    | inr (item, post, _, _, _, e) ↦ (post ∷ [], e)
  ]

  flush_all-sent :
      (names : List String) (w : World)
      → (more : List Post) × ((flush_all c o names w).0.sent ≡ w.sent ++ more)
  flush_all-sent [] w = ([], unfold flush_all in sym (append_nil w.sent))
  flush_all-sent (name ∷ rest) w =
      let (first, e) = flush_one-sent name w in
      elim (flush_all-Next name rest w) [
        | inr (_, ends, _) ↦ (first, ap (λ x. x.sent) ends ∙ e)
        | inl (_, goes) ↦
            let (more, e') = flush_all-sent rest (flush_one c o name w).0 in
            (
              first ++ more,
              ap (λ x. x.0.sent) goes ∙ e' ∙ ap (λ x. x ++ more) e ∙ append_assoc w.sent first more,
            )
      ]

  -- What becomes of a file.
  abbrev pub Fate : String → Entry → World → Type 0
  Fate name e w = (lookup name w.entries ≡ some e) ⊎ Settled e w.sent

  open_item-checked :
      (name : String) (entries : Directory) {e : Entry} {item : QueuedRequest} {post : Post}
      → lookup name entries ≡ some e
      → open_item c o name entries ≡ some (item, post)
      → (c.decode e.content ≡ some item) × (post_of c item ≡ some post)
  unfolding open_item
  open_item-checked name entries {e} {item} {post} h opened =
      elim (Option-cases (c.decode e.content)) [
        | inl nothing ↦ absurd (ground arith)
        | inr (i, decodes) ↦ elim (Option-cases (post_of c i)) [
          | inl nothing ↦ absurd (ground arith)
          | inr (p, posts) ↦ ground arith
        ]
      ]

  flush_one-Fate :
      (n name : String) (w : World) {e : Entry}
      → lookup name w.entries ≡ some e
      → Fate name e (flush_one c o n w).0
  flush_one-Fate n name w {e} h = elim (flush_one-Round n w) [
    | inl (same, _, _, _) ↦ inl (ground arith)
    | inr (item, post, opened, answered, gone, sent) ↦ elim (Bool-cases (str_eq n name)) [
      | inr other ↦ inl (ground (arith, lookup-delete n name w.entries))
      | inl here ↦
          let (decodes, posts) =
            open_item-checked n w.entries
              (ap (λ x. lookup x w.entries) ((eq_iff n name).0 here) ∙ h) opened in
          inr (record {
            item = item;
            post = post;
            before = w.sent;
            after = [];
            decoded = decodes;
            valid = posts;
            logged = sent;
            answered = answered;
          })
    ]
  ]

  flush_all-Fate :
      (names : List String) (name : String) (w : World) {e : Entry}
      → lookup name w.entries ≡ some e
      → Fate name e (flush_all c o names w).0
  flush_all-Fate [] name w h = unfold flush_all in inl h
  flush_all-Fate (n ∷ rest) name w {e} h =
      let w' : World = (flush_one c o n w).0 in
      elim (flush_all-Next n rest w) [
        | inr (_, ends, _) ↦ subst (Fate name e) (sym ends) (flush_one-Fate n name w h)
        | inl (_, goes) ↦
            subst (λ x. Fate name e x.0) (sym goes)
              (elim (flush_one-Fate n name w h) [
                | inl kept ↦ flush_all-Fate rest name w' kept
                | inr settled ↦
                    let (more, sent) = flush_all-sent rest w' in
                    inr (subst (Settled e) (sym sent) (Settled-append e w'.sent more settled))
              ])
      ]

  -- Whatever fails on the way, a file that was in the queue's directory is still there after a flush,
  -- or its request was sent, valid, to the Controller, which accepted it or, for the result of a
  -- command, answered that it has expired.
  pub flush_loses_nothing :
      (name : String) (e : Entry) (w : World)
      → lookup name w.entries ≡ some e
      → Fate name e (flush c o w).0
  unfolding flush
  flush_loses_nothing name e w h = elim (Option-cases (files o w.entries)) [
    | inl nothing ↦
        let same : w ≡ (flush c o w).0 = ground arith in subst (Fate name e) same (inl h)
    | inr ((names, total), found) ↦
        let same : (flush_all c o names w).0 ≡ (flush c o w).0 = ground arith in
        subst (Fate name e) same (flush_all-Fate names name w h)
  ]
