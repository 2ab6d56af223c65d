-- ===== src/Jose/Jwe/Key/Constructed.antt =====
-- jose/jwe/key.rs: the ways to make a public key.
use infosec.Common.{
  drop, ℕ, ◌≤◌, ◌-◌, ◌≡◌, ap, ◌∙◌, ◌⊎◌, inl, inr, Option, none, some, Bytes, Text, length,
  length-append, length-take, length-drop, arith,
}
use infosec.Common.{ok}
use infosec.Foreign.Encodings.{Base64}
use infosec.Foreign.Encryption.{Ecies, IsEcies}
use infosec.Jose.Jwe.Key.{
  PublicKey, slice, to_vec, from_x, from_tagged, from_ecies, from_x25519, try_from, from_slice,
  public_key_from_str,
}
use infosec.Jose.Jwe.Key.Encoding.{IsKey, IsCoordinate, try_from-IsRead, try_from-to_vec}
use infosec.Jose.Jwe.Key.Texts.{public_key_from_str-eq-ok}

-- The conversions of the module that make a public key: those of the arrays, which have the length
-- of their type, that of a slice, which is also that of a vector, `from_slice`, those of a text,
-- that of a key of `ecies`, and that of an X25519 key, which has 32 bytes.
pub data Constructed (base64 : Base64) (ecies : Ecies) : PublicKey → Type 0 where
  of_32 : (val : Bytes) → length val ≡ 32 → Constructed base64 ecies (from_x val)
  of_65 : (val : Bytes) → length val ≡ 65 → Constructed base64 ecies (from_tagged val)
  of_bytes : (val : Bytes) (key : PublicKey) → try_from val ≡ ok key → Constructed base64 ecies key
  of_slice :
      (val : Bytes) (key : PublicKey) → from_slice val ≡ ok key → Constructed base64 ecies key
  of_text :
      (text : Text) (key : PublicKey)
      → public_key_from_str base64 text ≡ ok key
      → Constructed base64 ecies key
  of_point : (point : ecies.PublicKey) → Constructed base64 ecies (from_ecies ecies point)
  of_x25519 : (val : Bytes) → length val ≡ 32 → Constructed base64 ecies (from_x25519 val)

length-slice :
    (from to : ℕ) (val : Bytes) → to ≤ length val → length (slice from to val) ≡ to - from
length-slice from to val h =
    omega (arith, length-take (to - from) (drop from val), length-drop from val)

from_tagged-IsKey : (val : Bytes) → length val ≡ 65 → IsKey (from_tagged val)
unfolding from_tagged
from_tagged-IsKey val size = record {
  x = length-slice 1 33 val (omega arith);
  y = length-slice 33 65 val (omega arith);
}

module _ (base64 : Base64) (ecies : Ecies) (laws : IsEcies ecies) where
  Constructed-IsKey : (key : PublicKey) → Constructed base64 ecies key → IsKey key
  unfolding from_x from_ecies from_x25519
  Constructed-IsKey _ (of_32 val size) = record { x = size; y = tt }
  Constructed-IsKey _ (of_65 val size) = from_tagged-IsKey val size
  Constructed-IsKey key (of_bytes val _ h) = ((try_from-IsRead val key).0 h).0
  Constructed-IsKey key (of_slice val _ h) = ((try_from-IsRead val key).0 h).0
  Constructed-IsKey key (of_text text _ h) =
      let (a, n) = (public_key_from_str-eq-ok base64 text key).0 h in
      record { x = a.size; y = rw n tt }
  Constructed-IsKey _ (of_point point) =
      let (x, y, e, xs, ys) = laws.serialized point in
      from_tagged-IsKey _ (ap length e ∙ omega (arith, length-append x y))
  Constructed-IsKey _ (of_x25519 val size) = record { x = size; y = tt }

  encoded_sizes :
      (x : Bytes) (y : Option Bytes)
      → length x ≡ 32
      → IsCoordinate y
      → (length (to_vec (record { x = x; y = y })) ≡ 32)
        ⊎ (length (to_vec (record { x = x; y = y })) ≡ 65)
  unfolding to_vec
  encoded_sizes x none xs c = inl xs
  encoded_sizes x (some y) xs c = inr (omega (arith, length-append x y))

  -- Where a point of the curve is serialized as 65 bytes: however a public key is made by
  -- the conversions of the module, those of a `dalek` key included, its
  -- coordinates have 32 bytes, `to_vec` has 32 or 65, and `try_from` makes the same key of them.
  pub Constructed-kept :
      (key : PublicKey)
      → Constructed base64 ecies key
      → IsKey key
        × ((length (to_vec key) ≡ 32) ⊎ (length (to_vec key) ≡ 65))
        × (try_from (to_vec key) ≡ ok key)
  Constructed-kept key made =
      let k = Constructed-IsKey key made in
      (k, encoded_sizes key.x key.y k.x k.y, try_from-to_vec key k)
