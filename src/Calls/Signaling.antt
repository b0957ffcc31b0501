-- ===== src/Calls/Signaling.antt =====
-- packages/calls/engine/signaling.ts: the raw SDP strings on the wire. A thrown TypeError is `thrown`.
use Prim.Native.String.{String}
use slothfulchat_web.Prelude.{◌≡◌, refl, ◌⊎◌, inl, inr, arith}

pub data CallSdpType : Type 0 where
  offer answer : CallSdpType

pub record CallSessionDescription : Type 0 where
  pub type : CallSdpType
  pub sdp : String

pub data SignalingError : Type 0 where
  expected_offer expected_answer empty_sdp : SignalingError

pub data Result {ℓ} (A : Type ℓ) : Type ℓ where
  ok : A → Result A
  thrown : SignalingError → Result A

infixl 5 ◌>>=◌ ◌>>◌
abbrev ◌>>=◌ {ℓ κ} : {A : Type ℓ} {B : Type κ} → Result A → (A → Result B) → Result B
ok a >>= f = f a
thrown e >>= f = thrown e

abbrev ◌>>◌ {ℓ} : {B : Type ℓ} → Result (Unit {0}) → Result B → Result B
m >> k = m >>= λ _. k

unfoldable pub assert_non_empty_sdp : String → Result (Unit {0})
assert_non_empty_sdp String.[] = thrown empty_sdp
assert_non_empty_sdp (String.◌∷◌ c s) = ok tt

abbrev expect : CallSdpType → CallSdpType → SignalingError → Result (Unit {0})
expect offer offer e = ok tt
expect answer answer e = ok tt
expect _ _ e = thrown e

unfoldable pub serialize_offer : CallSessionDescription → Result String
serialize_offer d = do expect offer d.type expected_offer; assert_non_empty_sdp d.sdp; ok d.sdp

unfoldable pub serialize_answer : CallSessionDescription → Result String
serialize_answer d = do expect answer d.type expected_answer; assert_non_empty_sdp d.sdp; ok d.sdp

unfoldable pub deserialize_offer : String → Result CallSessionDescription
deserialize_offer s = do assert_non_empty_sdp s; ok (record { type = offer; sdp = s })

unfoldable pub deserialize_answer : String → Result CallSessionDescription
deserialize_answer s = do assert_non_empty_sdp s; ok (record { type = answer; sdp = s })

abbrev pub serialize : CallSdpType → CallSessionDescription → Result String
serialize offer d = serialize_offer d
serialize answer d = serialize_answer d

abbrev pub deserialize : CallSdpType → String → Result CallSessionDescription
deserialize offer s = deserialize_offer s
deserialize answer s = deserialize_answer s

assert-cases :
    (s : String) → (assert_non_empty_sdp s ≡ ok tt) ⊎ (assert_non_empty_sdp s ≡ thrown empty_sdp)
unfolding assert_non_empty_sdp
assert-cases String.[] = inr refl
assert-cases (String.◌∷◌ c s) = inl refl

-- The wire carries the SDP verbatim: of either kind, a description is serialized to the string `s`
-- exactly when `s` is read back as that description.
pub serialize-deserialize :
    (t : CallSdpType) (d : CallSessionDescription) (s : String)
    → (serialize t d ≡ ok s → deserialize t s ≡ ok d)
      × (deserialize t s ≡ ok d → serialize t d ≡ ok s)
unfolding serialize_offer serialize_answer deserialize_offer deserialize_answer
serialize-deserialize offer d s = ground (arith, assert-cases d.sdp, assert-cases s)
serialize-deserialize answer d s = ground (arith, assert-cases d.sdp, assert-cases s)
