-- ===== src/Examples/KeyStores.antt =====
-- The key stores of jose/jwe.rs with small crates, and the JSON of the headers as the source says.
use infosec.Common.{suc, Bool, true, false, ◌≡◌, refl, some, Bytes, Text, replicate}
use infosec.Jose.Jwe.Algorithms.{a256gcm}
use infosec.Jose.Jwe.Libraries.{Libraries, AreLawful}
use infosec.Jose.Jwe.Builder.Built.{protected_of}
use infosec.Jose.Jwe.Builder.Ready.{NeverFail}
use infosec.Jose.Jwe.Stores.{
  KeyCrates, simple, compact, default, wrapped, ed25519, ecies_test, edx25519,
}
use infosec.Jose.Jwe.Stores.Receivers.{AreKeyCrates}
use infosec.Jose.Jwe.Stores.Agreed.{IsKeyPair, Agrees}
use infosec.Jose.Jwe.Stores.Passed.{Passes, tests_pass}
use infosec.Jose.Serde.Encrypted.{protected_codec, flat_codec, write_protected}
use infosec.Jose.Serde.Encrypted.Back.{flat_codec-IsRoundTrip}
use infosec.Examples.Encodings.{raw, raw-IsRoundTrip, hex_base64, hex-IsBase64}
use infosec.Examples.JsonText.{prefix_text, prefix-IsJsonText}
use infosec.Examples.Ciphers.{
  bit, plain_aead, plain-IsAead, arrays, arrays-IsArrays, prefix_wrap, prefix-IsKeyWrap, bit_x25519,
  bit-IsX25519, bit_ecies, bit-IsEcies, counter_rng, counter-IsRng,
}
use infosec.Examples.JweMessages.{payload}

abbrev lib : Libraries
lib = record {
  base64 = hex_base64;
  protected_json = protected_codec prefix_text;
  flat_json = flat_codec prefix_text;
  aes_gcm = plain_aead;
  xchacha = plain_aead;
  arrays = arrays;
  key_wrap = prefix_wrap;
  x25519 = bit_x25519;
  ecies = bit_ecies;
  rng = counter_rng;
}

laws : AreLawful lib
laws = record {
  base64 = hex-IsBase64;
  flat_json = flat_codec-IsRoundTrip prefix_text prefix-IsJsonText;
  aes_gcm = plain-IsAead 12;
  xchacha = plain-IsAead 24;
  arrays = arrays-IsArrays;
  key_wrap = prefix-IsKeyWrap;
  x25519 = bit-IsX25519;
  ecies = bit-IsEcies;
  rng = counter-IsRng;
}

never_fail : NeverFail lib
never_fail = record {
  aes_gcm = λ key nonce aad plaintext k n. (_, _, refl);
  xchacha = λ key nonce aad plaintext k n. (_, _, refl);
  wrap = λ kek key k n. (_, refl);
  encapsulate = λ e key. (_, refl);
}

-- A secret is a bit, and the digest repeats what it is given.
abbrev crates : KeyCrates lib
crates = record {
  random_static = λ n. (true, suc n);
  static_to_bytes = λ s. replicate 32 (bit s);
  serialize = λ s. replicate 32 (bit s);
  SigningKey = Bool;
  generate = λ n. (true, suc n);
  signing_to_bytes = λ s. replicate 32 (bit s);
  VerifyingKey = Bool;
  verifying_key = λ s. s;
  verifying_from = λ bytes. bit_ecies.parse_secret bytes;
  to_montgomery = λ s. replicate 32 (bit s);
  sha512 = λ bytes. bytes;
}

secret_back : (s : Bool) → bit_ecies.parse_secret (replicate 32 (bit s)) ≡ some s
secret_back true = refl
secret_back false = refl

static_back : (s : Bool) → bit_x25519.static_from (replicate 32 (bit s)) ≡ s
static_back true = refl
static_back false = refl

derived :
    (s : Bool)
    → crates.to_montgomery s
      ≡ bit_x25519.static_public (bit_x25519.static_from (replicate 32 (bit s)))
derived true = refl
derived false = refl

key_laws : AreKeyCrates lib crates
key_laws = record {
  static_back = static_back;
  secret_back = secret_back;
  signing_length = λ s. refl;
  derived = derived;
}

abbrev alice_secret : Text
alice_secret = hex_base64.encode_string (replicate 32 (bit true))

abbrev alice_public : Text
alice_public = hex_base64.encode_string (replicate 32 (bit true))

alice_pair : IsKeyPair lib crates alice_secret alice_public
alice_pair = record {
  key = true;
  secret_decoded = hex-IsBase64.decode-encode (replicate 32 (bit true));
  bytes = replicate 32 (bit true);
  public_decoded = hex-IsBase64.decode-encode (replicate 32 (bit true));
  public_length = refl;
  verifies = refl;
}

tests_pass_example :
    Passes payload (simple lib crates Bytes raw payload)
    × Passes payload (compact lib crates Bytes raw payload)
    × Passes payload (default lib crates Bytes raw payload)
    × Passes payload (wrapped lib crates Bytes raw payload)
    × Passes payload (ed25519 lib crates Bytes raw payload)
    × Passes payload (ecies_test lib crates Bytes raw payload)
    × Agrees (edx25519 lib crates alice_secret alice_public)
tests_pass_example =
    tests_pass lib crates laws key_laws never_fail Bytes raw raw-IsRoundTrip payload payload
      (prefix_text.print (write_protected (protected_of a256gcm))) refl refl (λ h. (_, refl))
      alice_secret alice_public alice_pair
