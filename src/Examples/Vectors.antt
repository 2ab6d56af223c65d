-- ===== src/Examples/Vectors.antt =====
-- The tests of jose/jwk.rs and cose/key.rs at the texts that stand in them.
use infosec.Common.{◌≡◌, refl, ok, ◌>>=◌, Bytes-discrete}
use infosec.Jose.Jwk.{from_multibase, to_multibase}
use infosec.Jose.Jwk.Checks.{
  round_trip_text, round_trip_jwk, to_jwk_text, to_jwk_jwk, round_trip, to_jwk,
}
use infosec.Cose.Key
use infosec.Cose.Key.Checks.{es256k_cbor, x_hex, y_hex, key_of, serialize, deserialize}
use infosec.Examples.CborBytes.{hex, cbor_values}
use infosec.Examples.Radix.{base64url, base58}

round_trip_passes :
    round_trip base64url base58 round_trip_text ≡ ok (round_trip_jwk, round_trip_text)
unfolding round_trip from_multibase to_multibase Bytes-discrete
round_trip_passes = refl

to_jwk_passes : to_jwk base64url base58 to_jwk_text ≡ ok to_jwk_jwk
unfolding to_jwk from_multibase Bytes-discrete
to_jwk_passes = refl

serialize_passes : serialize hex cbor_values x_hex y_hex ≡ ok es256k_cbor
unfolding serialize Key.to_value
serialize_passes = refl

deserialize_passes :
    deserialize hex cbor_values es256k_cbor x_hex y_hex
    ≡ (do key ← key_of hex cbor_values x_hex y_hex; ok (key, key))
unfolding deserialize Key.try_from
deserialize_passes = refl
