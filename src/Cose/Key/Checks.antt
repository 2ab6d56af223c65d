-- ===== src/Cose/Key/Checks.antt =====
-- cose/key.rs, its module `test`.
use infosec.Common.{some, Text, codes}
use infosec.Common.{Outcome, ok, expect, unwrap, ◌>>=◌}
use infosec.Types.{ec, es256k}
use infosec.Foreign.Encodings.{Codec, Hex}
use infosec.Foreign.Cbor.{Value}
use infosec.Cose.Cbor.{to_vec, from_slice}
use infosec.Cose.Key.{CoseKey}
use infosec.Cose.Key.Wire.{key_codec}

-- ES256K_CBOR, X_HEX and Y_HEX.
abbrev pub es256k_cbor : Text
es256k_cbor =
    codes
      "a40102200821582065eda5a12577c2bae829437fe338701a10aaa375e1bb5b5de108de439c08551d2258201e52ed75701163f7f9e40ddf9f341b3dc9ba860af7e0ca7ca7e9eecd0084d19c"

abbrev pub x_hex : Text
x_hex = codes "65eda5a12577c2bae829437fe338701a10aaa375e1bb5b5de108de439c08551d"

abbrev pub y_hex : Text
y_hex = codes "1e52ed75701163f7f9e40ddf9f341b3dc9ba860af7e0ca7ca7e9eecd0084d19c"

module _ (hex : Hex) (values : Codec Value) where
  -- The key of the tests.
  abbrev pub key_of : Text → Text → Outcome CoseKey
  key_of x_text y_text = do
    x ← unwrap (hex.decode x_text)
    y ← unwrap (hex.decode y_text)
    ok (record { kty = ec; crv = es256k; x = x; y = some y })

  -- The test `serialize`: what it compares with ES256K_CBOR.
  unfoldable pub serialize : Text → Text → Outcome Text
  unfolding to_vec
  serialize x_text y_text = do
    cose_key ← key_of x_text y_text
    cbor ← expect (to_vec (key_codec values) cose_key)
    ok (hex.encode cbor)

  -- The test `deserialize`: the two keys that it compares.
  unfoldable pub deserialize : Text → Text → Text → Outcome (CoseKey × CoseKey)
  unfolding from_slice
  deserialize text x_text y_text = do
    bytes ← unwrap (hex.decode text)
    key ← expect (from_slice (key_codec values) bytes)
    cose_key ← key_of x_text y_text
    ok (key, cose_key)
