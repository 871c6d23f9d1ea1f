-- ===== src/Agent/Queue/Capacity.antt =====
-- What `Enqueue` of internal/agent/queue.go adds to the queue.
use Prim.Native.String.{◌++◌ as cat}
use witshield.Base.{
  ℕ, suc, ◌+◌, ◌≤◌, ◌<◌, String, len, ◌≡◌, ◌≢◌, refl, sym, ap, ◌∙◌, ◌⊎◌, inl, inr, true, ◌||◌,
  Option, none, some, List, [], ◌∷◌, length, ltb, leb, str_eq, eq_iff, Bool-cases, arith,
}
use witshield.Base.Dict.{lookup, insert, lookup-insert}
use witshield.Helper.Files.{regular}
use witshield.Agent.Queue.{
  QueuedRequest, Entry, Directory, Queue, Codec, Post, Outside, is_regular, is_kind, insert_name,
  sort_names, queue_names, total_bytes, files, file_name, store, enqueue, post_of, open_item,
  max_queued_payload_bytes,
}

length-insert_name : (x : String) (xs : List String) → length (insert_name x xs) ≡ suc (length xs)
unfolding insert_name
length-insert_name x [] = refl
length-insert_name x (y ∷ ys) = ground (arith, length-insert_name x ys)

length-sort_names : (xs : List String) → length (sort_names xs) ≡ length xs
unfolding sort_names
length-sort_names [] = refl
length-sort_names (x ∷ xs) =
    ground (arith, length-insert_name x (sort_names xs), length-sort_names xs)

-- A new file is at most one more.
length-queue_names-insert :
    (name : String) (e : Entry) (entries : Directory)
    → is_regular e.kind ≡ true
    → length (queue_names (insert name e entries)) ≤ length (queue_names entries) + 1
unfolding queue_names insert
length-queue_names-insert name e [] h = ground arith
length-queue_names-insert name e ((n, f) ∷ rest) h =
    ground (arith, length-queue_names-insert name e rest h)

body_same : {b b' : String} → some b ≡ some b' → b' ≡ b
body_same e = ground arith

module _ (c : Codec) (q : Queue) (o : Outside) (id : String) (now : ℕ)
    (kind command_id : String) where
  abbrev pub item_of : String → QueuedRequest
  item_of b = record { id = id; kind = kind; command_id = command_id; body = b; created_at = now }

  -- A request that is refused leaves the directory alone; one that is not has a kind, a body, and
  -- room.
  abbrev Entering : Option String → Directory → Type 0
  Entering body entries =
      ((enqueue c q o id now kind command_id body entries).0 ≡ entries)
        × ((enqueue c q o id now kind command_id body entries).1 ≢ none)
      ⊎ ((b : String) × (body ≡ some b)
          × (is_kind kind ≡ true)
          × (length (queue_names entries) < q.max_items)
          × (total_bytes entries + len b ≤ q.max_bytes)
          × (enqueue c q o id now kind command_id body entries ≡ store c o (item_of b) entries))

  enqueue-Entering : (body : Option String) (entries : Directory) → Entering body entries
  unfolding enqueue files
  enqueue-Entering none entries = inl (ground arith, λ x. ground arith)
  enqueue-Entering (some b) entries = elim (Bool-cases (is_kind kind)) [
    | inr e ↦ inl (ground arith, λ x. ground arith)
    | inl e1 ↦ elim (Bool-cases (ltb max_queued_payload_bytes (len b))) [
      | inl e ↦ inl (ground arith, λ x. ground arith)
      | inr e2 ↦ elim (Bool-cases o.read_ok) [
        | inr e ↦ inl (ground arith, λ x. ground arith)
        | inl e3 ↦
            elim (Bool-cases (
              leb q.max_items (length (sort_names (queue_names entries)))
              || ltb q.max_bytes (total_bytes entries + len b))) [
                | inl e ↦ inl (ground arith, λ x. ground arith)
                | inr e4 ↦ inr (
                  b,
                  refl,
                  e1,
                  ground (arith, length-sort_names (queue_names entries)),
                  ground arith,
                  ground arith,
                )
              ]
      ]
    ]
  ]

  -- Enqueueing never takes a queue over its number of items, whatever goes wrong.
  enqueue_bounded :
      (body : Option String) (entries : Directory)
      → length (queue_names entries) ≤ q.max_items
      → length (queue_names (enqueue c q o id now kind command_id body entries).0) ≤ q.max_items
  unfolding store is_regular
  enqueue_bounded body entries h = elim (enqueue-Entering body entries) [
    | inl (same, _) ↦ ground arith
    | inr (b, _, _, few, _, e) ↦ ground (
      arith,
      length-queue_names-insert (file_name c (item_of b))
          (record { kind = regular; content = c.marshal (item_of b) }) entries refl,
    )
  ]

  stored :
      (b : String) (entries : Directory)
      → (store c o (item_of b) entries).1 ≡ none
      → lookup (file_name c (item_of b)) (store c o (item_of b) entries).0
        ≡ some (record { kind = regular; content = c.marshal (item_of b) })
  unfolding store
  stored b entries h = ground (
    arith,
    lookup-insert (file_name c (item_of b)) (file_name c (item_of b))
        (record { kind = regular; content = c.marshal (item_of b) }) entries,
    eq_iff (file_name c (item_of b)) (file_name c (item_of b)),
  )

  post_of_item :
      (b : String)
      → is_kind kind ≡ true
      → id ≢ ""
      → now ≢ 0
      → c.json_valid b ≡ true
      → (kind ≡ "command_result" → command_id ≢ "")
      → (post : Post) × (post_of c (item_of b) ≡ some post) × (post.body ≡ b)
  unfolding post_of is_kind
  post_of_item b k named dated valid commanded = elim (Bool-cases (str_eq kind "report")) [
    | inl e ↦ (record { path = "/agent/v1/reports"; body = b }, ground (arith, eq_iff id ""), refl)
    | inr e1 ↦ elim (Bool-cases (str_eq kind "events")) [
      | inl e ↦ (record { path = "/agent/v1/events"; body = b }, ground (arith, eq_iff id ""), refl)
      | inr e2 ↦ (
        record {
          path = cat "/agent/v1/commands/" (cat (c.path_escape command_id) "/result");
          body = b;
        },
        ground (arith, eq_iff id "", eq_iff kind "command_result", eq_iff command_id ""),
        refl,
      )
    ]
  ]

  open_item-stored :
      (b : String) (entries : Directory) {post : Post}
      → c.decode (c.marshal (item_of b)) ≡ some (item_of b)
      → o.read_file_ok (file_name c (item_of b)) ≡ true
      → post_of c (item_of b) ≡ some post
      → lookup (file_name c (item_of b)) entries
        ≡ some (record { kind = regular; content = c.marshal (item_of b) })
      → open_item c o (file_name c (item_of b)) entries ≡ some (item_of b, post)
  unfolding open_item
  open_item-stored b entries decodes readable posts found = ground arith

  -- Where enqueueing reports no error, the codec reads back the item that it wrote, the file can be
  -- read, the identifier is not empty, the time not zero, the body valid JSON, and an item of the kind
  -- of command results names its command, the item can be sent with its body.
  pub enqueue_readable :
      (b : String) (entries : Directory)
      → (enqueue c q o id now kind command_id (some b) entries).1 ≡ none
      → c.decode (c.marshal (item_of b)) ≡ some (item_of b)
      → o.read_file_ok (file_name c (item_of b)) ≡ true
      → id ≢ ""
      → now ≢ 0
      → c.json_valid b ≡ true
      → (kind ≡ "command_result" → command_id ≢ "")
      → (post : Post) × (open_item c o
            (file_name c (item_of b))
            (enqueue c q o id now kind command_id (some b) entries).0
          ≡ some (item_of b, post))
        × (post.body ≡ b)
  enqueue_readable b entries h decodes readable named dated valid commanded =
      elim (enqueue-Entering (some b) entries) [
        | inl (_, fails) ↦ absurd (fails h)
        | inr (b', same, k, _, _, e) ↦
            let e' : enqueue c q o id now kind command_id (some b) entries
                ≡ store c o (item_of b) entries =
              e ∙ ap (λ x. store c o (item_of x) entries) (body_same same) in
            let (post, posts, body) = post_of_item b k named dated valid commanded in
            let found = stored b entries (sym (ap (λ x. x.1) e') ∙ h) in
            (
              post,
              ap (λ x. open_item c o (file_name c (item_of b)) x.0) e'
                  ∙ open_item-stored b (store c o (item_of b) entries).0 decodes readable posts
                      found,
              body,
            )
      ]
