-- ===== src/Engine/Seal.antt =====
-- The sealed rollback state: `sealState`, `openState`, `stateMAC`, `validState` and the digests of
-- internal/action/engine.go.
pub mod Integrity
use Prim.Native.Char.{code}
use Prim.Native.String.{◌++◌ as cat}
use witshield.Base.{
  ℕ, zero, suc, ◌+◌, ◌/◌, ◌%◌, String, len, Bool, not, ◌&&◌, ◌||◌, none, some, List, [], ◌∷◌, ◌++◌,
  ltb, ◌==◌, str_eq, if◌then◌else◌,
}
use witshield.Engine.Types.{
  Request, Receipt, SealedRollbackState, Library, max_rollback_state_bytes,
}

-- The bytes of a text (its code points, where it is not ASCII).
abbrev pub codes : String → List ℕ
codes String.[] = []
codes (String.◌∷◌ letter text) = code letter ∷ codes text

pub data Opened : Type 0 where
  opened : String → Opened
  refused : String → Opened

infixr 65 ◌⊹◌
abbrev pub ◌⊹◌ : String → String → String
◌⊹◌ = cat

-- strconv.Itoa, on enough fuel; a version below 0 is refused as any other that is not 1.
itoa_fuel : ℕ → ℕ → List ℕ
itoa_fuel zero n = []
itoa_fuel (suc fuel) n =
    let rest = itoa_fuel fuel (n / 10) ++ ((b'0' + n % 10) ∷ []) in
    if ltb n 10 then (b'0' + n) ∷ [] else rest

unfoldable pub itoa : ℕ → List ℕ
unfolding itoa_fuel
itoa n = itoa_fuel (suc n) n

-- What `stateMAC` writes to the hash.
unfoldable pub mac_input : SealedRollbackState → List ℕ
mac_input s =
    itoa s.version
    ++ (0
        ∷ (codes s.action_id
            ++ (0 ∷ (codes s.type ++ (0 ∷ (codes s.parameters_digest ++ (0 ∷ codes s.payload)))))))

module _ (l : Library) where
  open l use {
    json_valid, canonical, sha256_hex, hmac_hex, marshal_sealed, decode_sealed, marshal_receipt,
  }

  unfoldable pub valid_state : String → Bool
  valid_state state = ltb 0 (len state) && json_valid state && not (str_eq state "null")

  unfoldable pub digest_bytes : String → String
  digest_bytes value = "sha256:" ⊹ sha256_hex value

  unfoldable pub digest_parameters : String → String
  unfolding digest_bytes
  digest_parameters raw = elim (canonical raw) [
    | none ↦ digest_bytes raw
    | some text ↦ digest_bytes text
  ]

  unfoldable pub receipt_digest : Receipt → String
  unfolding digest_bytes
  receipt_digest receipt = digest_bytes (marshal_receipt (record receipt { digest = "" }))

  unfoldable pub state_mac : String → SealedRollbackState → String
  unfolding mac_input
  state_mac key s = hmac_hex key (mac_input s)

  unfoldable pub seal_state : String → String → String → String → String → String
  unfolding state_mac digest_parameters
  seal_state key action_id type parameters payload =
      let state : SealedRollbackState = record {
        version = 1;
        action_id = action_id;
        type = type;
        parameters_digest = digest_parameters parameters;
        payload = payload;
        mac = "";
      } in
      marshal_sealed (record state { mac = state_mac key state })

  -- The tests of `openState` on a decoded state, in their order.
  unfoldable pub check_sealed : String → Request → SealedRollbackState → Opened
  unfolding state_mac digest_parameters
  check_sealed key request s =
      if not (s.version == 1)
        || not (json_valid s.payload)
        || ltb max_rollback_state_bytes (len s.payload)
      then refused "rollback state is invalid or unsigned"
      else if not (str_eq s.action_id request.action_id)
          || not (str_eq s.type request.type)
          || not (str_eq s.parameters_digest (digest_parameters request.parameters))
      then refused "rollback state does not match the action request"
      else if not (str_eq (state_mac key s) s.mac)
      then refused "rollback state signature is invalid"
      else opened s.payload

  unfoldable pub open_state : String → Request → Opened
  unfolding valid_state check_sealed
  open_state key request =
      if not (valid_state request.state)
      then refused "rollback state is required"
      else elim (decode_sealed request.state) [
        | none ↦ refused "rollback state is invalid or unsigned"
        | some s ↦ check_sealed key request s
      ]
