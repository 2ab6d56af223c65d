-- ===== src/Jose/Jwe/Builder/Total.antt =====
-- jose/jwe/encrypt.rs: the numbers of recipients for which `build` returns a JWE.
use infosec.Common.{◌≡◌, ◌↔◌, some, Bytes, length, All}
use infosec.Common.{ok}
use infosec.Foreign.Encodings.{Codec}
use infosec.Jose.Jwe.Algorithms.{
  ContentAlgorithm, a256gcm as a256gcm_content, xchacha20_poly1305 as xchacha_content,
}
use infosec.Jose.Jwe.Data.{Jwe}
use infosec.Jose.Jwe.Libraries.{Libraries, AreLawful}
use infosec.Jose.Jwe.Encrypt.{Encrypted, a256gcm, xchacha20_poly1305}
use infosec.Jose.Jwe.Builder.{JweBuilder, Payload, cek, encrypt_content, build}
use infosec.Jose.Jwe.Builder.Built.{protected_of, assemble, build-IsBuilt}
use infosec.Jose.Jwe.Builder.Ready.{
  NeverFail, IsCount, HasKey, IsCount-key_encrypter, IsReady, ready,
}

module _ (lib : Libraries) (laws : AreLawful lib) (total : NeverFail lib) where
  open lib use {base64, protected_json, rng}

  module _ (Json : Type 0) {T : Type 0} (json : Codec T) where
    encrypt_content_total :
        (algorithm : ContentAlgorithm) (plaintext : T) (key aad buffer : Bytes) (s : rng.State)
        → json.to_vec plaintext ≡ some buffer
        → length key ≡ 32
        → (encrypted : Encrypted) × (t : rng.State) × (encrypt_content lib Json json algorithm
              plaintext key aad s
            ≡ ok (encrypted, t))
    unfolding encrypt_content a256gcm xchacha20_poly1305
    encrypt_content_total a256gcm_content plaintext key aad buffer s p size =
        let (nonce, t) = rng.aes_nonce s in
        let (c, tag, e) = total.aes_gcm key nonce aad buffer size (laws.rng.nonce_length s) in
        (
          record {
            iv = base64.encode_string nonce;
            tag = base64.encode_string tag;
            ciphertext = c;
          },
          t,
          rw (p, e),
        )
    encrypt_content_total xchacha_content plaintext key aad buffer s p size =
        let (nonce, t) = rng.xchacha_nonce s in
        let (c, tag, e) =
          total.xchacha key nonce aad buffer size (laws.rng.xchacha_nonce_length s) in
        (
          record {
            iv = base64.encode_string nonce;
            tag = base64.encode_string tag;
            ciphertext = c;
          },
          t,
          rw (p, e),
        )

    build_returns :
        (b : JweBuilder (Payload T)) (s : rng.State) (buffer aad : Bytes)
        → json.to_vec b.payload.value ≡ some buffer
        → protected_json.to_vec (protected_of b.content_algorithm) ≡ some aad
        → IsReady lib laws total b.key_algorithm b.recipients s
        → (jwe : Jwe Json) × (t : rng.State) × (build lib Json json b s ≡ ok (jwe, t))
    unfolding build
    build_returns b s buffer aad p h i =
        let (encrypted, s₁, c) =
          encrypt_content_total b.content_algorithm b.payload.value (cek i.encrypter) aad buffer i.t
            p i.size in
        let (recipients, t, k) = i.keys s₁ in
        (
          assemble lib Json json b.content_algorithm aad encrypted recipients,
          t,
          rw (i.chosen, h, c, k),
        )

    -- Where the crates keep their laws and none fails, the payload and the header are serialized
    -- and the recipients have keys of the right kind, `build` returns a JWE exactly if the number
    -- of recipients is one that the key management algorithm takes: one for ECDH-ES, at least one
    -- for the others.
    pub build-IsCount :
        (b : JweBuilder (Payload T)) (s : rng.State) (buffer aad : Bytes)
        → json.to_vec b.payload.value ≡ some buffer
        → protected_json.to_vec (protected_of b.content_algorithm) ≡ some aad
        → All (HasKey lib b.key_algorithm) b.recipients
        → ((jwe : Jwe Json) × (t : rng.State) × (build lib Json json b s ≡ ok (jwe, t)))
          ↔ IsCount b.key_algorithm b.recipients
    build-IsCount b s buffer aad p h all = (
      λ (jwe, t, e).
          let built = build-IsBuilt lib Json json laws b s t jwe e in
          IsCount-key_encrypter lib b.key_algorithm b.recipients built.encrypter s built.s₁
            built.chosen,
      λ n.
          build_returns b s buffer aad p h
            (ready lib laws total b.key_algorithm b.recipients s n all),
    )
