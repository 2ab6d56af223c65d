-- ===== src/Jose/Jwe/Builder/Failed.antt =====
-- When `build` returns no JWE.
use infosec.Common.{◌≡◌, none, some, Bytes}
use infosec.Common.{Error, ok, foreign}
use infosec.Foreign.Encodings.{Codec}
use infosec.Jose.Jwe.Algorithms.{a256gcm as a256gcm_content, xchacha20_poly1305 as xchacha_content}
use infosec.Jose.Jwe.Libraries.{Libraries}
use infosec.Jose.Jwe.Encrypt.{Encrypted, a256gcm, xchacha20_poly1305}
use infosec.Jose.Jwe.Builder.{
  JweBuilder, Payload, KeyEncrypter, cek, key_encrypter, encrypt_content,
}
use infosec.Jose.Jwe.Builder.Built.{scheme, protected_of}
use infosec.Jose.Jwe.Builder.Sizes.{Refused}
use infosec.Jose.Jwe.Builder.EntryFails.{SealFails}
use infosec.Jose.Jwe.Builder.Fails.{drawn, KeysFail}

module _ (lib : Libraries) (Json : Type 0) {T : Type 0} (json : Codec T) where
  open lib use {protected_json, rng}
  open rng use {State}

  module _ (b : JweBuilder (Payload T)) (s : State) where
    -- The key encrypter is chosen and the header is serialized.
    pub record IsPrepared (k : KeyEncrypter) (t : State) (aad : Bytes) : Type 0 where
      pub chosen : key_encrypter lib b.key_algorithm b.recipients s ≡ ok (k, t)
      pub serialized : protected_json.to_vec (protected_of b.content_algorithm) ≡ some aad

    -- The first step of `build` that fails, and with which error.
    pub data BuildFails : Error → Type 0 where
      in_count : (e : Error) → Refused b.key_algorithm b.recipients e → BuildFails e
      in_header :
          (k : KeyEncrypter) (t : State)
          → key_encrypter lib b.key_algorithm b.recipients s ≡ ok (k, t)
          → protected_json.to_vec (protected_of b.content_algorithm) ≡ none
          → BuildFails foreign
      in_content :
          (k : KeyEncrypter) (t : State) (aad : Bytes) (e : Error)
          → IsPrepared k t aad
          → SealFails lib json
              (scheme lib b.content_algorithm)
              (drawn lib b.content_algorithm t)
              b.payload.value
              (cek k)
              aad
              e
          → BuildFails e
      in_keys :
          (k : KeyEncrypter) (t u : State) (aad : Bytes) (encrypted : Encrypted) (e : Error)
          → IsPrepared k t aad
          → encrypt_content lib Json json b.content_algorithm b.payload.value (cek k) aad t
            ≡ ok (encrypted, u)
          → KeysFail lib k u e
          → BuildFails e
