-- ===== src/Jose/Jwe/Algorithms.antt =====
-- jose/jwe.rs: the algorithms of JSON web encryption.

-- How the content is encrypted. The default is `a256gcm`.
pub data ContentAlgorithm : Type 0 where
  a256gcm xchacha20_poly1305 : ContentAlgorithm

-- How the content encryption key is encrypted or derived. The default is `ecdh_es`.
pub data KeyAlgorithm : Type 0 where
  ecdh_es ecdh_es_a256kw ecies_es256k : KeyAlgorithm

-- The compression of the plaintext; nothing in the source applies it.
pub data Zip : Type 0 where
  deflate : Zip
