-- ===== src/Agent/Queue/Order.antt =====
-- That a flush sends the queue in the order of its files (internal/agent/queue.go).
use mathlib.Core.Path.{subst}
use witshield.Base.{
  String, ◌≡◌, ◌≢◌, refl, sym, ap, ◌∙◌, ◌⊎◌, inl, inr, true, none, some, List, [], ◌∷◌, ◌++◌, All,
  eq_iff, Bool-cases, arith,
}
use witshield.Base.Dict.{lookup, delete, Distinct, lookup-delete}
use witshield.Agent.Queue.{
  QueuedRequest, Entry, Directory, Codec, Post, Outside, World, is_queue_file, sort_names,
  queue_names, files, open_item, flush_one, flush_all, flush,
}
use witshield.Agent.Queue.Delivery.{append_assoc, append_nil, flush_one-Round, flush_all-Next}
use witshield.Agent.Queue.Names.{
  All-of_sorted, Unique-sort_names, queue_names-Unique, queue_names-each, Unique,
}

-- The requests of the named files, in their order.
pub posts_of : Codec → Outside → List String → Directory → List Post
posts_of c o [] entries = []
posts_of c o (name ∷ rest) entries =
    let posts = posts_of c o rest entries in
    elim (open_item c o name entries) [ none ↦ posts | some (item, post) ↦ post ∷ posts ]

module _ (c : Codec) (o : Outside) where
  open_item-delete :
      (n name : String) (entries : Directory)
      → name ≢ n
      → open_item c o name (delete n entries) ≡ open_item c o name entries
  unfolding open_item
  open_item-delete n name entries h = ground (arith, lookup-delete n name entries, eq_iff n name)

  posts_of-delete :
      (n : String) (names : List String) (entries : Directory)
      → All (λ y. y ≢ n) names
      → posts_of c o names (delete n entries) ≡ posts_of c o names entries
  unfolding posts_of
  posts_of-delete n [] entries a = refl
  posts_of-delete n (name ∷ rest) entries (h, a) =
      ground (arith, open_item-delete n name entries h, posts_of-delete n rest entries a)

  posts_of-cons :
      (n : String) (rest : List String) (entries : Directory) {item : QueuedRequest} {post : Post}
      → open_item c o n entries ≡ some (item, post)
      → posts_of c o (n ∷ rest) entries ≡ post ∷ posts_of c o rest entries
  unfolding posts_of
  posts_of-cons n rest entries opened = ground arith

  lookup_deleted : (n : String) (entries : Directory) → lookup n (delete n entries) ≡ none
  lookup_deleted n entries = ground (arith, lookup-delete n n entries, eq_iff n n)

  -- What is removed stays removed.
  flush_all-gone :
      (names : List String) (name : String) (w : World)
      → lookup name w.entries ≡ none
      → lookup name (flush_all c o names w).0.entries ≡ none
  flush_all-gone [] name w h = unfold flush_all in h
  flush_all-gone (n ∷ rest) name w h =
      let gone : lookup name (flush_one c o n w).0.entries ≡ none = elim (flush_one-Round c o n w) [
        | inl (same, _, _, _) ↦ ground arith
        | inr (_, _, _, _, e, _) ↦ ground (arith, lookup-delete n name w.entries)
      ] in
      elim (flush_all-Next c o n rest w) [
        | inr (_, ends, _) ↦ subst (λ x. lookup name x.entries ≡ none) (sym ends) gone
        | inl (good, goes) ↦
            subst (λ x. lookup name x.0.entries ≡ none) (sym goes)
              (flush_all-gone rest name (flush_one c o n w).0 gone)
      ]

  abbrev Done : List String → World → World → Type 0
  Done names w w' =
      (w'.sent ≡ w.sent ++ posts_of c o names w.entries)
      × All (λ n. lookup n w'.entries ≡ none) names

  flush_all-Done :
      (names : List String) (w : World)
      → Unique names
      → (flush_all c o names w).1 ≡ none
      → Done names w (flush_all c o names w).0
  flush_all-Done [] w u h = unfold flush_all posts_of in (sym (append_nil w.sent), tt)
  flush_all-Done (n ∷ rest) w (new, u) h = elim (flush_all-Next c o n rest w) [
    | inr (_, _, fails) ↦ absurd (fails h)
    | inl (good, goes) ↦ elim (flush_one-Round c o n w) [
      | inl (_, fails, _, _) ↦ absurd (fails good)
      | inr (item, post, opened, _, gone, sent) ↦
          let w' : World = (flush_one c o n w).0 in
          let (more, removed) = flush_all-Done rest w' u (sym (ap (λ x. x.1) goes) ∙ h) in
          let rest_same : posts_of c o rest w'.entries ≡ posts_of c o rest w.entries =
            ap (posts_of c o rest) gone ∙ posts_of-delete n rest w.entries new in
          let all : (flush_all c o rest w').0.sent ≡ w.sent ++ posts_of c o (n ∷ rest) w.entries =
            more
            ∙ ap (λ x. x ++ posts_of c o rest w'.entries) sent
            ∙ append_assoc w.sent (post ∷ []) (posts_of c o rest w'.entries)
            ∙ ap (λ x. w.sent ++ (post ∷ x)) rest_same
            ∙ ap (λ x. w.sent ++ x) (sym (posts_of-cons n rest w.entries opened)) in
          let away : lookup n w'.entries ≡ none = ap (lookup n) gone ∙ lookup_deleted n w.entries in
          subst (λ x. Done (n ∷ rest) w x.0) (sym goes)
            (all, (flush_all-gone rest n w' away, removed))
    ]
  ]

flush-cases :
    (c : Codec) (o : Outside) (w : World)
    → ((flush c o w).1 ≢ none)
      ⊎ (flush c o w ≡ flush_all c o (sort_names (queue_names w.entries)) w)
unfolding flush files
flush-cases c o w = elim (Bool-cases o.read_ok) [
  | inr e ↦ inl (λ x. ground arith)
  | inl e ↦ inr (ground arith)
]

-- Where a flush of a directory reports no error, the requests of all its queue files were sent, each
-- once, in the order of the sorted names, and no queue file is left.
pub flush_in_order :
    (c : Codec) (o : Outside) (w : World)
    → Distinct w.entries
    → (flush c o w).1 ≡ none
    → ((flush c o w).0.sent ≡ w.sent ++ posts_of c o (sort_names (queue_names w.entries)) w.entries)
      × ((name : String) (e : Entry)
          → lookup name w.entries ≡ some e
          → is_queue_file name e ≡ true
          → lookup name (flush c o w).0.entries ≡ none)
flush_in_order c o w d h = elim (flush-cases c o w) [
  | inl fails ↦ absurd (fails h)
  | inr runs ↦
      let names : List String = sort_names (queue_names w.entries) in
      let done =
        flush_all-Done c o names w
          (Unique-sort_names (queue_names w.entries) (queue_names-Unique w.entries d))
          (sym (ap (λ x. x.1) runs) ∙ h) in
      let gone =
        All-of_sorted (λ n. lookup n (flush_all c o names w).0.entries ≡ none)
          (queue_names w.entries) done.1 in
      (
        ap (λ x. x.0.sent) runs ∙ done.0,
        λ name e found q.
            ap (λ x. lookup name x.0.entries) runs
            ∙ queue_names-each (λ n. lookup n (flush_all c o names w).0.entries ≡ none) w.entries
                name gone found q,
      )
]
