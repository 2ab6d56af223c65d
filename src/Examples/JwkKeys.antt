-- ===== src/Examples/JwkKeys.antt =====
-- jose/jwk.rs on small multibase keys.
use infosec.Common.{
  ◌≡◌, refl, ◌↔◌, inr, true, false, ◌++◌, Bytes, Text, replicate, byte, x1, x2, ok, panic, ◌>>=◌,
}
use infosec.Jose.Jwk.{
  PublicKeyJwk, default, ed25519_codec, x25519_codec, from_multibase, to_multibase,
}
use infosec.Jose.Jwk.Multikey.{
  IsMultikey, jwk_of, from_multibase-eq-ok, IsShort, to_multibase-from_multibase,
}
use infosec.Common.{Error, err}
use infosec.Jose.Jwk.Refused.{Refused, from_multibase_fails}
use infosec.Examples.Encodings.{hex_base64, hex-IsBase64, hex_multibase, hex-IsMultibase, mark}

abbrev x : Bytes
x = replicate 32 (byte x1 x2)

abbrev jwk : PublicKeyJwk
jwk = record default { x = hex_base64.encode_string x }

abbrev multikey : Bytes → Text
multikey codec = hex_multibase.encode hex_multibase.base58_btc (codec ++ x)

-- The key of an agreement on X25519.
abbrev agreement_multikey : IsMultikey hex_multibase (multikey x25519_codec) x
agreement_multikey = record {
  base = hex_multibase.base58_btc;
  codec = x25519_codec;
  decoded = refl;
  known = inr refl;
  size = refl;
}

from_multibase-eq-ok_example :
    (from_multibase hex_base64 hex_multibase true (multikey x25519_codec) ≡ ok jwk) ↔ (
      (x : Bytes) × IsMultikey hex_multibase (multikey x25519_codec) x
      × (jwk ≡ jwk_of hex_base64 hex_multibase x))
from_multibase-eq-ok_example =
    from_multibase-eq-ok hex_base64 hex_multibase true (multikey x25519_codec) jwk

abbrev short_key : Text
short_key = hex_multibase.encode hex_multibase.base58_btc mark

-- One byte.
from_multibase_fails_example :
    ((e : Error)
      → (from_multibase hex_base64 hex_multibase false short_key ≡ err e)
        ↔ Refused hex_base64 hex_multibase false short_key e)
    × ((from_multibase hex_base64 hex_multibase false short_key ≡ panic)
        ↔ ((false ≡ true) × IsShort hex_base64 hex_multibase short_key))
from_multibase_fails_example = from_multibase_fails hex_base64 hex_multibase false short_key

to_multibase-from_multibase_example :
    (do
      k ← from_multibase hex_base64 hex_multibase false (multikey x25519_codec)
      to_multibase hex_base64 hex_multibase k)
    ≡ ok (multikey ed25519_codec)
to_multibase-from_multibase_example =
    to_multibase-from_multibase hex_base64 hex_multibase hex-IsBase64 hex-IsMultibase false
      (multikey x25519_codec) x agreement_multikey
