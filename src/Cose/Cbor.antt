-- ===== src/Cose/Cbor.antt =====
-- cose/cbor.rs: CBOR byte vectors and `Tag24`, over any format of the wrapped type.
pub mod RoundTrip
use infosec.Common.{ℕ, Bool, Option, none, some, Bytes, ◌==◌, if◌then◌else◌}
use infosec.Common.{Outcome, ok, err, panic, message, caused, foreign, or_err, ◌>>=◌}
use infosec.Foreign.Encodings.{Codec}
use infosec.Foreign.Cbor.{Value, integer, bytes, float, text, bool, null, tag, array, map}

pub record Tag24 {ℓ} (T : Type ℓ) : Type ℓ where
  pub inner : T

abbrev pub tag24 : ℕ
tag24 = 24

module _ {ℓ} {T : Type ℓ} (cbor : Codec T) where
  unfoldable pub to_vec : T → Outcome Bytes
  to_vec value = or_err (cbor.to_vec value) foreign

  unfoldable pub from_slice : Bytes → Outcome T
  from_slice slice = or_err (cbor.from_slice slice) (caused "CoseError::DecodeFailed")

-- `Deref for Tag24`
unfoldable pub deref {ℓ} : {T : Type ℓ} → Tag24 T → T
deref t = t.inner

module _ {ℓ} {T : Type ℓ} (cbor : Codec T) where
  -- `Tag24::to_vec`: the bytes of the inner value, without the tag.
  unfoldable pub inner_to_vec : Tag24 T → Outcome Bytes
  unfolding to_vec
  inner_to_vec t = to_vec cbor t.inner

  -- What a tag of another number, or no tag, is refused with.
  abbrev not_a_tag24 : Outcome (Tag24 T)
  not_a_tag24 = err (caused "not a tag24")

  -- The match on the value under tag 24.
  unfoldable pub from_tagged : Value → Outcome (Tag24 T)
  unfolding from_slice
  from_tagged (bytes b) = do inner ← from_slice cbor b; ok (record { inner = inner })
  from_tagged _ = err (caused "invalid tag")

  -- `TryFrom<Value> for Tag24`
  unfoldable pub try_from : Value → Outcome (Tag24 T)
  unfolding from_tagged
  try_from (tag n value) = if n == tag24 then from_tagged value else not_a_tag24
  try_from _ = not_a_tag24

  -- The value that `Serialize for Tag24` hands to the serializer; `unwrap` panics on an error.
  unfoldable pub to_value : Tag24 T → Outcome Value
  to_value t = elim (cbor.to_vec t.inner) [ none ↦ panic | some b ↦ ok (tag tag24 (bytes b)) ]

  -- `Deserialize for Tag24`, from what `Value::deserialize` gave; `de::Error::custom` keeps the text.
  unfoldable pub deserialize : Option Value → Outcome (Tag24 T)
  unfolding try_from
  deserialize v = do value ← or_err v foreign; try_from value
