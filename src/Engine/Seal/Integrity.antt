-- ===== src/Engine/Seal/Integrity.antt =====
-- The rollback state round trip, and what an accepted rollback state is bound to
-- (`sealState`, `openState`, `stateMAC` of internal/action/engine.go).
use text.Mathlib.TextEquality.{Char-path}
use text.Mathlib.TextPositions.{eq_refl}
use witshield.Base.{
  ℕ, String, len, ◌≤◌, ◌≡◌, ◌≢◌, refl, sym, inl, inr, Option-cases, ap, ◌∙◌, true, some, List, [],
  ◌∷◌, ◌++◌, All, eq_iff, arith,
}
use witshield.Engine.Types.{Request, SealedRollbackState, Library, max_rollback_state_bytes}
use witshield.Engine.Seal.{
  opened, codes, valid_state, digest_parameters, itoa, mac_input, state_mac, seal_state,
  check_sealed, open_state,
}

-- The state that `seal_state` marshals.
abbrev pub signed_state : Library → String → Request → String → SealedRollbackState
signed_state l key request payload =
    let state : SealedRollbackState = record {
      version = 1;
      action_id = request.action_id;
      type = request.type;
      parameters_digest = digest_parameters l request.parameters;
      payload = payload;
      mac = "";
    } in
    record state { mac = state_mac l key state }

signed_state-opens :
    (l : Library) (key : String) (request : Request) (payload : String)
    → l.json_valid payload ≡ true
    → len payload ≤ max_rollback_state_bytes
    → check_sealed l key request (signed_state l key request payload) ≡ opened payload
unfolding check_sealed
signed_state-opens l key request payload valid small = ground (
  arith,
  eq_refl request.action_id,
  eq_refl request.type,
  eq_refl (digest_parameters l request.parameters),
  eq_refl (state_mac l key (signed_state l key request payload)),
)

-- What encoding/json gives for a sealed state: the text is valid JSON other than `null`, and
-- decoding it gives the state back with its payload compacted, since a RawMessage is compacted when
-- it is marshalled.
pub record JsonRoundTrip (l : Library) (s : SealedRollbackState) : Type 0 where
  pub compacted : String
  pub marshal_valid : valid_state l (l.marshal_sealed s) ≡ true
  pub decode_marshal :
      l.decode_sealed (l.marshal_sealed s) ≡ some (record s { payload = compacted })

-- A rollback state that the engine has sealed opens again, with its payload, for the action, type
-- and parameters that it was sealed for, if the payload is valid JSON of at most 512 KiB that
-- marshalling leaves as it is.
pub open-seal :
    (l : Library) (key : String) (request : Request) (payload : String)
    (j : JsonRoundTrip l (signed_state l key request payload))
    → l.json_valid payload ≡ true
    → len payload ≤ max_rollback_state_bytes
    → j.compacted ≡ payload
    → request.state ≡ seal_state l key request.action_id request.type request.parameters payload
    → open_state l key request ≡ opened payload
unfolding open_state seal_state
open-seal l key request payload j valid small compacted sealed =
    let t = signed_state l key request payload in
    let decoded : l.decode_sealed (l.marshal_sealed t) ≡ some t =
      j.decode_marshal ∙ ap (λ x. some (record t { payload = x })) compacted in
    ground (arith, decoded, j.marshal_valid, signed_state-opens l key request payload valid small)

-- An accepted state `s` is what the request holds, is signed, and is bound to the request.
pub record Accepted (l : Library) (key : String) (request : Request) (s : SealedRollbackState)
    : Type 0 where
  pub decoded : l.decode_sealed request.state ≡ some s
  pub version_one : s.version ≡ 1
  pub same_action : s.action_id ≡ request.action_id
  pub same_type : s.type ≡ request.type
  pub same_parameters : s.parameters_digest ≡ digest_parameters l request.parameters
  pub signed : s.mac ≡ state_mac l key s
  pub small : len s.payload ≤ max_rollback_state_bytes

check_sealed-Accepted :
    (l : Library) (key : String) (request : Request) (s : SealedRollbackState) (payload : String)
    → l.decode_sealed request.state ≡ some s
    → check_sealed l key request s ≡ opened payload
    → Accepted l key request s × (s.payload ≡ payload)
unfolding check_sealed
check_sealed-Accepted l key request s payload d h = ground (
  arith,
  eq_iff s.action_id request.action_id,
  eq_iff s.type request.type,
  eq_iff s.parameters_digest (digest_parameters l request.parameters),
  eq_iff (state_mac l key s) s.mac,
)

-- Opening accepts nothing but a state in the request's text that is signed under the engine's key
-- for the request's own action, type and parameters.
pub open-Accepted :
    (l : Library) (key : String) (request : Request) {payload : String}
    → open_state l key request ≡ opened payload
    → (s : SealedRollbackState) × Accepted l key request s × (s.payload ≡ payload)
unfolding open_state
open-Accepted l key request {payload} h = elim (Option-cases (l.decode_sealed request.state)) [
  | inl missing ↦ absurd (ground arith)
  | inr (s, found) ↦
      let (a, b) = check_sealed-Accepted l key request s payload found (ground arith) in (s, a, b)
]

-- No byte of the text is NUL, which separates the fields under the MAC.
abbrev pub NulFree : List ℕ → Type 0
NulFree = All (λ c. c ≢ 0)

frame_cancel :
    (xs ys us vs : List ℕ)
    → NulFree xs
    → NulFree ys
    → xs ++ (0 ∷ us) ≡ ys ++ (0 ∷ vs)
    → (xs ≡ ys) × (us ≡ vs)
frame_cancel [] [] us vs hx hy e = (refl, cc)
frame_cancel [] (y ∷ ys) us vs hx hy e = absurd (ground arith)
frame_cancel (x ∷ xs) [] us vs hx hy e = absurd (ground arith)
frame_cancel (x ∷ xs) (y ∷ ys) us vs hx hy e =
    let (p, q) = frame_cancel xs ys us vs hx.1 hy.1 (cc) in (ground arith, q)

codes-injective : (s t : String) → codes s ≡ codes t → s ≡ t
codes-injective String.[] String.[] e = refl
codes-injective String.[] (String.◌∷◌ d t) e = cc
codes-injective (String.◌∷◌ c s) String.[] e = cc
codes-injective (String.◌∷◌ c s) (String.◌∷◌ d t) e =
    cc (Char-path c d (cc), codes-injective s t (cc))

pub record Framed (s : SealedRollbackState) : Type 0 where
  pub version_one : s.version ≡ 1
  pub action_framed : NulFree (codes s.action_id)
  pub type_framed : NulFree (codes s.type)
  pub digest_framed : NulFree (codes s.parameters_digest)

itoa-one : itoa 1 ≡ b'1' ∷ []
unfolding itoa
itoa-one = refl

one_framed : (version : ℕ) → version ≡ 1 → NulFree (itoa version)
one_framed version h = rw (h, itoa-one) (omega arith)

-- The MAC's input determines the fields that it is made of.
mac_input-injective :
    (s t : SealedRollbackState)
    → Framed s
    → Framed t
    → mac_input s ≡ mac_input t
    → (s.action_id ≡ t.action_id)
      × (s.type ≡ t.type)
      × (s.parameters_digest ≡ t.parameters_digest)
      × (s.payload ≡ t.payload)
unfolding mac_input
mac_input-injective s t hs ht e =
    let (_, e₁) =
      frame_cancel (itoa s.version) (itoa t.version) _ _ (one_framed _ hs.version_one)
        (one_framed _ ht.version_one) e in
    let (action, e₂) =
      frame_cancel (codes s.action_id) (codes t.action_id) _ _ hs.action_framed ht.action_framed
        e₁ in
    let (type, e₃) =
      frame_cancel (codes s.type) (codes t.type) _ _ hs.type_framed ht.type_framed e₂ in
    let (digest, payload) =
      frame_cancel (codes s.parameters_digest) (codes t.parameters_digest) _ _ hs.digest_framed
        ht.digest_framed e₃ in
    (
      codes-injective _ _ action,
      codes-injective _ _ type,
      codes-injective _ _ digest,
      codes-injective _ _ payload,
    )

-- A state that is accepted under a MAC which was made for the state `t`, where the two MAC inputs
-- are no collision of the MAC and no field before the payload holds a NUL byte, is `t`'s: it has
-- `t`'s payload, and `t` was sealed for the action, type and parameters of the request.
pub Accepted-as_issued :
    (l : Library) (key : String) (request : Request) (s t : SealedRollbackState)
    → Accepted l key request s
    → Framed s
    → Framed t
    → (l.hmac_hex key (mac_input s) ≡ l.hmac_hex key (mac_input t) → mac_input s ≡ mac_input t)
    → s.mac ≡ state_mac l key t
    → (t.action_id ≡ request.action_id)
      × (t.type ≡ request.type)
      × (t.parameters_digest ≡ digest_parameters l request.parameters)
      × (s.payload ≡ t.payload)
unfolding state_mac
Accepted-as_issued l key request s t a hs ht no_collision issued =
    let same = mac_input-injective s t hs ht (no_collision (sym a.signed ∙ issued)) in ground arith
