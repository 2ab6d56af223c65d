-- ===== src/Jose/Jwe/Delivery.antt =====
-- jose/jwe/encrypt.rs and jose/jwe/decrypt.rs: `decrypt` after `build`.
use mathlib.Core.Path.{subst}
use infosec.Common.{[], refl, ◌≡◌, ◌∙◌, some, Bytes}
use infosec.Common.{ok, panic, >>=-eq-ok}
use infosec.Foreign.Encodings.{Codec, IsRoundTrip}
use infosec.Traits.{Receiver}
use infosec.Jose.Jwe.Algorithms.{a256gcm as a256gcm_content, xchacha20_poly1305 as xchacha_content}
use infosec.Jose.Jwe.Data.{Jwe}
use infosec.Jose.Jwe.Libraries.{Libraries, AreLawful}
use infosec.Jose.Jwe.Encrypt.{Recipient}
use infosec.Jose.Jwe.Builder.{JweBuilder, Payload, cek, build}
use infosec.Jose.Jwe.Builder.Built.{scheme, nonce_length, IsBuilt, build-IsBuilt}
use infosec.Jose.Jwe.Decrypt.{sender_key, decrypt_content, decrypt}
use infosec.Jose.Jwe.Decrypt.Content.{IsContent, decrypt_content-a256gcm, decrypt_content-xchacha}
use infosec.Jose.Jwe.Key.{PublicKey}
use infosec.Jose.Jwe.Builder.{encrypt}
use infosec.Jose.Jwe.Decrypt.Keys.{HoldsX25519}
use infosec.Jose.Jwe.Opening.{addressee, Holds, Opens, key_encrypter-Opens}

module _ (lib : Libraries) where
  open lib use {rng}

  module _ (Json : Type 0) {T : Type 0} (json : Codec T) (laws : AreLawful lib) where
    -- A receiver that opens its entry decrypts the content.
    decrypt_of_Opens :
        (jwe : Jwe Json) (receiver : Receiver) (key : Bytes)
        → Opens lib receiver jwe.recipients key
        → decrypt lib json jwe receiver ≡ decrypt_content lib json jwe key
    unfolding decrypt
    decrypt_of_Opens jwe receiver key o =
        let (sender, e₁, h₁) = >>=-eq-ok (sender_key lib o.entry.header.epk) _ o.opened in
        let (secret, e₂, h₂) = >>=-eq-ok (receiver.shared_secret sender) _ h₁ in
        rw (o.found, e₁, e₂, h₂)

    built-Opens :
        (b : JweBuilder (Payload T)) (s : rng.State) (jwe : Jwe Json) (receiver : Receiver)
        (r : Recipient)
        → addressee b.key_algorithm receiver.key_id b.recipients ≡ some r
        → Holds lib b.key_algorithm receiver r.public_key
        → (built : IsBuilt lib Json json b s jwe)
        → Opens lib receiver jwe.recipients (cek built.encrypter)
    built-Opens b s jwe receiver r a held built =
        key_encrypter-Opens lib laws receiver b.key_algorithm b.recipients r built.encrypter
          jwe.recipients s built.s₁ built.s₂ built.t a held built.chosen built.keys

    -- Where the crates keep their laws and what JSON wrote is read back: if `build` made a JWE of a
    -- payload with A256GCM for a list of recipients, under any key management algorithm, then a
    -- receiver that has the private key of the recipient it is addressed as decrypts the JWE to the
    -- payload.
    pub decrypt-build :
        IsRoundTrip json
        → (b : JweBuilder (Payload T)) (s t : rng.State) (jwe : Jwe Json) (receiver : Receiver)
          (r : Recipient)
        → b.content_algorithm ≡ a256gcm_content
        → addressee b.key_algorithm receiver.key_id b.recipients ≡ some r
        → Holds lib b.key_algorithm receiver r.public_key
        → build lib Json json b s ≡ ok (jwe, t)
        → decrypt lib json jwe receiver ≡ ok b.payload.value
    decrypt-build json_laws b s t jwe receiver r gcm a held h =
        let built = build-IsBuilt lib Json json laws b s t jwe h in
        let o = built-Opens b s jwe receiver r a held built in
        let content =
          subst
            (λ c.
              IsContent lib json (scheme lib c) (nonce_length c) (cek built.encrypter)
                b.payload.value jwe)
            gcm built.content in
        decrypt_of_Opens jwe receiver _ o
        ∙ decrypt_content-a256gcm lib json laws json_laws _ b.payload.value jwe o.size content

    -- Where the crates keep their laws: if `build` made a JWE with XChaCha20-Poly1305, it cannot be
    -- decrypted. A receiver that has the private key of the recipient it is addressed as panics,
    -- since it takes the nonce of 24 bytes for one of A256GCM.
    pub decrypt-build_xchacha :
        (b : JweBuilder (Payload T)) (s t : rng.State) (jwe : Jwe Json) (receiver : Receiver)
        (r : Recipient)
        → b.content_algorithm ≡ xchacha_content
        → addressee b.key_algorithm receiver.key_id b.recipients ≡ some r
        → Holds lib b.key_algorithm receiver r.public_key
        → build lib Json json b s ≡ ok (jwe, t)
        → decrypt lib json jwe receiver ≡ panic
    decrypt-build_xchacha b s t jwe receiver r xchacha a held h =
        let built = build-IsBuilt lib Json json laws b s t jwe h in
        let o = built-Opens b s jwe receiver r a held built in
        let content =
          subst
            (λ c.
              IsContent lib json (scheme lib c) (nonce_length c) (cek built.encrypter)
                b.payload.value jwe)
            xchacha built.content in
        decrypt_of_Opens jwe receiver _ o
        ∙ decrypt_content-xchacha lib json laws _ b.payload.value jwe o.size content

    -- Where the crates keep their laws and what JSON wrote is read back: what `encrypt` made for a
    -- public key is decrypted to the plaintext by a receiver with its private key on X25519,
    -- whatever key ID the receiver has.
    pub decrypt-encrypt :
        IsRoundTrip json
        → (plaintext : T) (key : PublicKey) (s t : rng.State) (jwe : Jwe Json) (receiver : Receiver)
        → HoldsX25519 lib receiver key
        → encrypt lib Json json plaintext key s ≡ ok (jwe, t)
        → decrypt lib json jwe receiver ≡ ok plaintext
    unfolding encrypt
    decrypt-encrypt json_laws plaintext key s t jwe receiver held h =
        decrypt-build json_laws _ s t jwe receiver (record { key_id = []; public_key = key }) refl
          refl held h
