-- ===== src/Jose/Jwe/Builder/Built.antt =====
-- What `build` has done when it returns a JWE.
use mathlib.Core.Path.{subst}
use infosec.Common.{ℕ, ◌≡◌, refl, sym, ap, ◌∙◌, inl, inr, none, some, Bytes, length}
use infosec.Common.{Option-cases}
use infosec.Common.{ok, caused, foreign, or_err, or_err-eq-ok}
use infosec.Foreign.Encodings.{Codec}
use infosec.Foreign.Encryption.{Aead}
use infosec.Jose.Jwe.Algorithms.{
  ContentAlgorithm, a256gcm as a256gcm_content, xchacha20_poly1305 as xchacha_content,
}
use infosec.Jose.Jwe.Data.{Recipients, Protected, Jwe}
use infosec.Jose.Jwe.Libraries.{Libraries, AreLawful}
use infosec.Jose.Jwe.Random.{
  Random, ◌>>=◌, pure, draw, lift, >>=-eq-ok, lift_bind-eq-ok, pure-eq-ok,
}
use infosec.Jose.Jwe.Encrypt.{Encrypted, a256gcm, xchacha20_poly1305}
use infosec.Jose.Jwe.Builder.{
  JweBuilder, Payload, KeyEncrypter, cek, encrypt_key, key_encrypter, encrypt_content, build,
}
use infosec.Jose.Jwe.Decrypt.Content.{IsContent}

-- The protected header of a built JWE.
abbrev pub protected_of : ContentAlgorithm → Protected
protected_of algorithm = record { alg = none; enc = algorithm }

-- The scheme and the length of its nonce.
abbrev pub scheme : Libraries → ContentAlgorithm → Aead
scheme lib a256gcm_content = lib.aes_gcm
scheme lib xchacha_content = lib.xchacha

abbrev pub nonce_length : ContentAlgorithm → ℕ
nonce_length a256gcm_content = 12
nonce_length xchacha_content = 24

module _ (lib : Libraries) where
  open lib use {base64, protected_json, rng}

  module _ (Json : Type 0) {T : Type 0} (json : Codec T) where
    -- The steps of `build`.
    pub record IsBuilt (b : JweBuilder (Payload T)) (s : rng.State) (jwe : Jwe Json) : Type 0 where
      pub encrypter : KeyEncrypter
      pub s₁ : rng.State
      pub chosen : key_encrypter lib b.key_algorithm b.recipients s ≡ ok (encrypter, s₁)
      pub content :
          IsContent lib json
            (scheme lib b.content_algorithm)
            (nonce_length b.content_algorithm)
            (cek encrypter)
            b.payload.value
            jwe
      pub s₂ : rng.State
      pub t : rng.State
      pub keys : encrypt_key lib encrypter s₂ ≡ ok (jwe.recipients, t)
      pub protected : jwe.protected ≡ protected_of b.content_algorithm
      pub unprotected : jwe.unprotected ≡ none
      pub aad : Bytes
      pub serialized : protected_json.to_vec (protected_of b.content_algorithm) ≡ some aad
      pub aad_field : jwe.aad ≡ base64.encode_string aad

    -- Both schemes encrypt alike, up to the cipher and the draw of its nonce.
    abbrev pub encrypt_by :
        Aead → (rng.State → Bytes × rng.State) → T → Bytes → Bytes → Random rng.State Encrypted
    encrypt_by aead draw_nonce plaintext key aad = do
      buffer ← lift (or_err (json.to_vec plaintext) foreign)
      nonce ← draw draw_nonce
      (ciphertext, tag) ←
          lift (or_err (aead.encrypt key nonce aad buffer) (caused "issue encrypting"))
      pure (record {
        iv = base64.encode_string nonce;
        tag = base64.encode_string tag;
        ciphertext = ciphertext;
      })

    module _ (aead : Aead) (draw_nonce : rng.State → Bytes × rng.State) (n : ℕ)
        (size : (s : rng.State) → length (draw_nonce s).0 ≡ n) where
      encrypt_by-IsContent :
          (plaintext : T) (key aad : Bytes) (encrypted : Encrypted) (s t : rng.State)
          (jwe : Jwe Json)
          → encrypt_by aead draw_nonce plaintext key aad s ≡ ok (encrypted, t)
          → jwe.iv ≡ encrypted.iv
          → jwe.tag ≡ encrypted.tag
          → jwe.ciphertext ≡ base64.encode_string encrypted.ciphertext
          → jwe.aad ≡ base64.encode_string aad
          → IsContent lib json aead n key plaintext jwe
      encrypt_by-IsContent plaintext key aad encrypted s t jwe h i g c a =
          let nonce = (draw_nonce s).0 in
          elim (Option-cases (json.to_vec plaintext)) [
            | inl n ↦ cc (rw n at h)
            | inr (buffer, p) ↦ elim (Option-cases (aead.encrypt key nonce aad buffer)) [
              | inl n ↦ cc (rw (p, n) at h)
              | inr ((ciphertext, tag), e) ↦
                  let made = (pure-eq-ok _ encrypted _ t (rw (p, e) at h)).0 in
                  record {
                    buffer = buffer;
                    serialized = p;
                    nonce = nonce;
                    nonce_size = size s;
                    aad = aad;
                    ciphertext = ciphertext;
                    tag = tag;
                    encrypted = e;
                    iv_field = i ∙ sym (ap (λ (x : Encrypted). x.iv) made);
                    aad_field = a;
                    ciphertext_field =
                        c ∙ sym (ap (λ (x : Encrypted). base64.encode_string x.ciphertext) made);
                    tag_field = g ∙ sym (ap (λ (x : Encrypted). x.tag) made);
                  }
            ]
          ]

    encrypt_content-IsContent :
        (laws : AreLawful lib) (algorithm : ContentAlgorithm) (plaintext : T) (key aad : Bytes)
        (encrypted : Encrypted) (s t : rng.State) (jwe : Jwe Json)
        → encrypt_content lib Json json algorithm plaintext key aad s ≡ ok (encrypted, t)
        → jwe.iv ≡ encrypted.iv
        → jwe.tag ≡ encrypted.tag
        → jwe.ciphertext ≡ base64.encode_string encrypted.ciphertext
        → jwe.aad ≡ base64.encode_string aad
        → IsContent lib json (scheme lib algorithm) (nonce_length algorithm) key plaintext jwe
    unfolding encrypt_content a256gcm xchacha20_poly1305
    encrypt_content-IsContent laws a256gcm_content =
        encrypt_by-IsContent lib.aes_gcm rng.aes_nonce 12 laws.rng.nonce_length
    encrypt_content-IsContent laws xchacha_content =
        encrypt_by-IsContent lib.xchacha rng.xchacha_nonce 24 laws.rng.xchacha_nonce_length

    -- The JWE that `build` puts together.
    abbrev pub assemble : ContentAlgorithm → Bytes → Encrypted → Recipients → Jwe Json
    assemble algorithm aad encrypted recipients = record {
      protected = protected_of algorithm;
      unprotected = none;
      recipients = recipients;
      aad = base64.encode_string aad;
      iv = encrypted.iv;
      ciphertext = base64.encode_string encrypted.ciphertext;
      tag = encrypted.tag;
    }

    IsBuilt-steps :
        (laws : AreLawful lib) (b : JweBuilder (Payload T)) (s s₁ s₂ t : rng.State) (jwe : Jwe Json)
        (encrypter : KeyEncrypter) (aad : Bytes) (encrypted : Encrypted) (recipients : Recipients)
        → key_encrypter lib b.key_algorithm b.recipients s ≡ ok (encrypter, s₁)
        → protected_json.to_vec (protected_of b.content_algorithm) ≡ some aad
        → encrypt_content lib Json json b.content_algorithm b.payload.value (cek encrypter) aad s₁
          ≡ ok (encrypted, s₂)
        → encrypt_key lib encrypter s₂ ≡ ok (recipients, t)
        → jwe ≡ assemble b.content_algorithm aad encrypted recipients
        → IsBuilt b s jwe
    IsBuilt-steps laws b s s₁ s₂ t jwe encrypter aad encrypted recipients chosen serialized content
          keys made =
        subst (IsBuilt b s) (sym made) (record {
          encrypter = encrypter;
          s₁ = s₁;
          chosen = chosen;
          content =
              encrypt_content-IsContent laws b.content_algorithm b.payload.value (cek encrypter) aad
                encrypted s₁ s₂ (assemble b.content_algorithm aad encrypted recipients) content refl
                refl refl refl;
          s₂ = s₂;
          t = t;
          keys = keys;
          protected = refl;
          unprotected = refl;
          aad = aad;
          serialized = serialized;
          aad_field = refl;
        })

    pub build-IsBuilt :
        (laws : AreLawful lib) (b : JweBuilder (Payload T)) (s t : rng.State) (jwe : Jwe Json)
        → build lib Json json b s ≡ ok (jwe, t)
        → IsBuilt b s jwe
    unfolding build
    build-IsBuilt laws b s t jwe h =
        let (encrypter, s₁, chosen, h₁) =
          >>=-eq-ok (key_encrypter lib b.key_algorithm b.recipients) _ s t jwe h in
        let (aad, serialized, h₂) =
          lift_bind-eq-ok
            (or_err (protected_json.to_vec (protected_of b.content_algorithm)) foreign) _ s₁ t jwe
            h₁ in
        let (encrypted, s₂, content, h₃) =
          >>=-eq-ok
            (encrypt_content lib Json json b.content_algorithm b.payload.value (cek encrypter) aad)
            _ s₁ t jwe h₂ in
        let (recipients, s₃, keys, h₄) = >>=-eq-ok (encrypt_key lib encrypter) _ s₂ t jwe h₃ in
        IsBuilt-steps laws b s s₁ s₂ s₃ jwe encrypter aad encrypted recipients chosen
          (or_err-eq-ok _ _ serialized) content keys (sym (pure-eq-ok _ jwe s₃ t h₄).0)
