-- ===== src/Jose/Jwe/Encrypt/Named.antt =====
-- jose/jwe/encrypt.rs: the key ID of the entry that is made for a recipient.
use infosec.Common.{◌≡◌, some, Bytes, arith}
use infosec.Common.{ok}
use infosec.Jose.Jwe.Data.{KeyEncryption}
use infosec.Jose.Jwe.Libraries.{Libraries}
use infosec.Jose.Jwe.Encrypt.{Recipient, ecdh_a256kw, ecies_es256k}

module _ (lib : Libraries) where
  open lib use {x25519, ecies, rng, key_wrap, aes_gcm}

  pub kid-ecdh_a256kw :
      (cek : Bytes) (r : Recipient) (ke : KeyEncryption) (s t : rng.State)
      → ecdh_a256kw lib cek r s ≡ ok (ke, t)
      → ke.header.kid ≡ some r.key_id
  unfolding ecdh_a256kw
  kid-ecdh_a256kw cek r ke s t h = ground arith

  pub kid-ecies_es256k :
      (cek : Bytes) (r : Recipient) (ke : KeyEncryption) (s t : rng.State)
      → ecies_es256k lib cek r s ≡ ok (ke, t)
      → ke.header.kid ≡ some r.key_id
  unfolding ecies_es256k
  kid-ecies_es256k cek r ke s t h = ground arith
