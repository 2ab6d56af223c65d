-- ===== src/Jose/Jwe/Stores/Receivers.antt =====
-- jose/jwe.rs, its module `test`: what a key store holds, and the crates that it calls.
use infosec.Common.{◌≡◌, refl, sym, ap, ◌∙◌, some, take, length}
use infosec.Jose.Jwe.Key.{from_x25519, from_ecies, secret_key_from}
use infosec.Jose.Jwe.Libraries.{Libraries}
use infosec.Jose.Jwe.Decrypt.Keys.{HoldsX25519, HoldsSecp256k1}
use infosec.Jose.Jwe.Stores.{
  KeyCrates, X25519, Ed25519, Es256k, x25519_receiver, ed25519_receiver, es256k_receiver,
}

-- The crates of the key stores: secrets are written and read back, and the Montgomery form of a key
-- on Ed25519 is the public key of the first half of the digest of its secret.
pub record AreKeyCrates (lib : Libraries) (crates : KeyCrates lib) : Type 0 where
  pub static_back :
      (s : lib.x25519.StaticSecret) → lib.x25519.static_from (crates.static_to_bytes s) ≡ s
  pub secret_back : (s : lib.ecies.SecretKey) → lib.ecies.parse_secret (crates.serialize s) ≡ some s
  pub signing_length : (k : crates.SigningKey) → length (crates.signing_to_bytes k) ≡ 32
  pub derived :
      (k : crates.SigningKey)
      → crates.to_montgomery (crates.verifying_key k)
        ≡ lib.x25519.static_public
            (lib.x25519.static_from (take 32 (crates.sha512 (crates.signing_to_bytes k))))

module _ (lib : Libraries) (crates : KeyCrates lib) (key_laws : AreKeyCrates lib crates) where
  open lib use {x25519, ecies}

  pub x25519_receiver-HoldsX25519 :
      (store : X25519 lib)
      → store.public_key ≡ x25519.static_public store.secret_key
      → HoldsX25519 lib (x25519_receiver lib crates store) (from_x25519 store.public_key)
  unfolding x25519_receiver from_x25519 secret_key_from
  x25519_receiver-HoldsX25519 store paired = record {
    secret = secret_key_from (crates.static_to_bytes store.secret_key);
    derives = λ sender. refl;
    public = paired ∙ ap x25519.static_public (sym (key_laws.static_back store.secret_key));
  }

  pub ed25519_receiver-HoldsX25519 :
      (store : Ed25519 lib)
      → store.public_key ≡ x25519.static_public store.secret_key
      → HoldsX25519 lib (ed25519_receiver lib crates store) (from_x25519 store.public_key)
  unfolding ed25519_receiver from_x25519 secret_key_from
  ed25519_receiver-HoldsX25519 store paired = record {
    secret = secret_key_from (crates.static_to_bytes store.secret_key);
    derives = λ sender. refl;
    public = paired ∙ ap x25519.static_public (sym (key_laws.static_back store.secret_key));
  }

  pub es256k_receiver-HoldsSecp256k1 :
      (store : Es256k lib)
      → store.public_key ≡ ecies.public_of store.secret_key
      → HoldsSecp256k1 lib (es256k_receiver lib crates store) (from_ecies ecies store.public_key)
  unfolding es256k_receiver secret_key_from
  es256k_receiver-HoldsSecp256k1 store paired = record {
    secret = secret_key_from (crates.serialize store.secret_key);
    own = store.secret_key;
    parsed = key_laws.secret_back store.secret_key;
    derives = λ sender. refl;
    public = ap (from_ecies ecies) paired;
  }
