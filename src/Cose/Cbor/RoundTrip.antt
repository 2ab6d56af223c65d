-- ===== src/Cose/Cbor/RoundTrip.antt =====
-- cose/cbor.rs: the values that are read as `Tag24`.
use infosec.Common.{◌≡◌, refl, ◌↔◌, inl, inr, some, Bytes}
use infosec.Common.{arith, ◌==◌, Bool-cases, ==_iff, Option-cases}
use infosec.Common.{ok}
use infosec.Foreign.Encodings.{Codec, IsRoundTrip}
use infosec.Foreign.Cbor.{Value, bytes, tag}
use infosec.Cose.Cbor.{Tag24, tag24, from_tagged, try_from, to_value, deserialize}

module _ {ℓ} {T : Type ℓ} (cbor : Codec T) where
  -- The value is tag 24 over the bytes of `t`.
  abbrev pub IsTagged : Value → T → Type ℓ
  IsTagged v t = (b : Bytes) × (v ≡ tag tag24 (bytes b)) × (cbor.from_slice b ≡ some t)

  from_tagged-eq-ok :
      (v : Value) (t : Tag24 T)
      → from_tagged cbor v ≡ ok t
      → (b : Bytes) × (v ≡ bytes b) × (cbor.from_slice b ≡ some t.inner)
  unfolding from_tagged
  from_tagged-eq-ok (bytes b) t h = (b, refl, ground arith)
  from_tagged-eq-ok _ t h = cc

  IsTagged-try_from : (v : Value) (t : Tag24 T) → try_from cbor v ≡ ok t → IsTagged v t.inner
  unfolding try_from
  IsTagged-try_from (tag n v) t h = elim (Bool-cases (n == tag24)) [
    | inl e ↦
        let (b, p, q) = from_tagged-eq-ok v t (rw e at h) in (b, cc ((==_iff n tag24).0 e, p), q)
    | inr e ↦ cc
  ]
  IsTagged-try_from _ t h = cc

  -- A value is read as `t` exactly when it is tag 24 over a byte string that holds `t`.
  pub try_from-IsTagged : (v : Value) (t : Tag24 T) → (try_from cbor v ≡ ok t) ↔ IsTagged v t.inner
  unfolding try_from
  try_from-IsTagged v t = (IsTagged-try_from v t, λ (b, p, q). rw p (rw q))

  -- If the format of the inner type reads back what it wrote, a `Tag24` that serializes without a
  -- panic is deserialized as itself.
  pub deserialize-to_value :
      IsRoundTrip cbor
      → (t : Tag24 T) (v : Value) → to_value cbor t ≡ ok v
      → deserialize cbor (some v) ≡ ok t
  unfolding to_value deserialize
  deserialize-to_value laws t v h = elim (Option-cases (cbor.to_vec t.inner)) [
    | inl e ↦ cc
    | inr (b, e) ↦ (try_from-IsTagged v t).1 (b, ground arith, laws.from_slice-to_vec _ _ e)
  ]
