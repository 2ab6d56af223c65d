-- ===== src/Jose/Jwe/Stores/Passed.antt =====
-- jose/jwe.rs, its module `test`: the round trips of the tests.
use infosec.Common.{
  ◌∙∙◌, ◌≡◌, refl, none, some, [], ◌∷◌, Bytes, Text, take, holds_iff, Text-discrete,
}
use infosec.Common.{ok, expect}
use infosec.Foreign.Encodings.{Codec, IsRoundTrip}
use infosec.Traits.{Receiver}
use infosec.Jose.Jwe.Algorithms.{a256gcm, ecdh_es, ecdh_es_a256kw, ecies_es256k}
use infosec.Jose.Jwe.Key.{from_x25519, from_ecies}
use infosec.Jose.Jwe.Data.{ProtectedFlat, Jwe}
use infosec.Jose.Jwe.Libraries.{Libraries, AreLawful}
use infosec.Jose.Jwe.Random.{Random, ◌>>=◌, lift}
use infosec.Jose.Jwe.Encrypt.{Recipient}
use infosec.Jose.Jwe.Builder.{
  JweBuilder, Payload, new, set_payload, set_content_algorithm, set_key_algorithm, add_recipient,
  build, encrypt,
}
use infosec.Jose.Jwe.Builder.Entries.{recipient_of}
use infosec.Jose.Jwe.Builder.Built.{protected_of, build-IsBuilt}
use infosec.Jose.Jwe.Builder.Ready.{NeverFail, IsCount, HasKey}
use infosec.Jose.Jwe.Builder.Total.{build-IsCount}
use infosec.Jose.Jwe.Decrypt.{decrypt}
use infosec.Jose.Jwe.Decrypt.Keys.{ecies_public-from_ecies}
use infosec.Jose.Jwe.Opening.{addressee, Holds}
use infosec.Jose.Jwe.Delivery.{decrypt-build}
use infosec.Jose.Jwe.Compact.{flat_header, encode}
use infosec.Jose.Jwe.Compact.RoundTrip.{IsPlain, plain_entry}
use infosec.Jose.Jwe.Transfer.{built-IsPlain, from_str-encode-build}
use infosec.Jose.Jwe.Stores.{
  edx25519, compact, KeyCrates, X25519, Ed25519, Es256k, alice, expecting, new_x25519, new_es256k,
  new_ed25519, x25519_receiver, ed25519_receiver, es256k_receiver, simple, default, wrapped,
  ed25519, ecies_test,
}
use infosec.Jose.Jwe.Stores.Receivers.{
  AreKeyCrates, x25519_receiver-HoldsX25519, ed25519_receiver-HoldsX25519,
  es256k_receiver-HoldsSecp256k1,
}
use infosec.Jose.Jwe.Stores.Agreed.{IsKeyPair, Agrees, edx25519-Agrees}

-- A test returns the plaintext, whatever the generators give.
abbrev pub Passes : {S T : Type 0} → T → Random S T → Type 0
Passes {S} {T} plaintext test = (s : S) → (t : S) × (test s ≡ ok (plaintext, t))

listed_alice : (r : Recipient) → recipient_of r.key_id (r ∷ []) ≡ some r
listed_alice r = rw ((holds_iff (Text-discrete r.key_id r.key_id)).1 refl) refl

module _ (lib : Libraries) (crates : KeyCrates lib) (laws : AreLawful lib)
    (key_laws : AreKeyCrates lib crates) where
  open lib use {base64, x25519, ecies, rng}

  module _ (total : NeverFail lib) (Json : Type 0) {T : Type 0} (json : Codec T)
      (json_laws : IsRoundTrip json) (plaintext : T) (buffer aad : Bytes)
      (written : json.to_vec plaintext ≡ some buffer)
      (header : lib.protected_json.to_vec (protected_of a256gcm) ≡ some aad) where
    -- Building for a receiver that holds the key, and decrypting.
    sent :
        (b : JweBuilder (Payload T)) (receiver : Receiver) (r : Recipient)
        → b.payload.value ≡ plaintext
        → b.content_algorithm ≡ a256gcm
        → b.recipients ≡ r ∷ []
        → IsCount b.key_algorithm b.recipients
        → addressee b.key_algorithm receiver.key_id b.recipients ≡ some r
        → HasKey lib b.key_algorithm r
        → Holds lib b.key_algorithm receiver r.public_key
        → (s : rng.State)
        → (t : rng.State) × ((expecting (build lib Json json b) >>= λ jwe.
                lift (expect (decrypt lib json jwe receiver)))
              s
            ≡ ok (plaintext, t))
    sent b receiver r value gcm single count addressed key held s =
        let (jwe, t, built) =
          (build-IsCount lib laws total Json json b s buffer aad (rw value written) (rw gcm header)
              (rw single (key, tt))).1
            count in
        let opened =
          decrypt-build lib Json json laws json_laws b s t jwe receiver r gcm addressed held
            built in
        (t, rw (built, opened, value) refl)

    default-Passes : Passes plaintext (default lib crates Json json plaintext)
    unfolding default new_x25519 new set_payload add_recipient
    default-Passes s =
        let (secret_key, t) = crates.random_static s in
        let store : X25519 lib = record {
          public_key = x25519.static_public secret_key;
          secret_key = secret_key;
        } in
        sent (add_recipient (set_payload new plaintext) alice (from_x25519 store.public_key))
          (x25519_receiver lib crates store)
          (record { key_id = alice; public_key = from_x25519 store.public_key }) refl refl refl
          (_, refl) refl tt (x25519_receiver-HoldsX25519 lib crates key_laws store refl) t

    simple-Passes : Passes plaintext (simple lib crates Json json plaintext)
    unfolding simple new_x25519 encrypt new set_payload set_content_algorithm set_key_algorithm
        add_recipient
    simple-Passes s =
        let (secret_key, t) = crates.random_static s in
        let store : X25519 lib = record {
          public_key = x25519.static_public secret_key;
          secret_key = secret_key;
        } in
        sent
          (add_recipient
            (set_payload (set_key_algorithm (set_content_algorithm new a256gcm) ecdh_es) plaintext)
            [] (from_x25519 store.public_key))
          (x25519_receiver lib crates store)
          (record { key_id = []; public_key = from_x25519 store.public_key }) refl refl refl
          (_, refl) refl tt (x25519_receiver-HoldsX25519 lib crates key_laws store refl) t

    ed25519-Passes : Passes plaintext (ed25519 lib crates Json json plaintext)
    unfolding ed25519 new_ed25519 new set_payload add_recipient
    ed25519-Passes s =
        let (signing_key, t) = crates.generate s in
        let store : Ed25519 lib = record {
          public_key = crates.to_montgomery (crates.verifying_key signing_key);
          secret_key =
              x25519.static_from (take 32 (crates.sha512 (crates.signing_to_bytes signing_key)));
        } in
        sent (add_recipient (set_payload new plaintext) alice (from_x25519 store.public_key))
          (ed25519_receiver lib crates store)
          (record { key_id = alice; public_key = from_x25519 store.public_key }) refl refl refl
          (_, refl) refl tt
          (ed25519_receiver-HoldsX25519 lib crates key_laws store (key_laws.derived signing_key)) t

    wrapped-Passes : Passes plaintext (wrapped lib crates Json json plaintext)
    unfolding wrapped new_x25519 new set_payload set_content_algorithm set_key_algorithm
        add_recipient
    wrapped-Passes s =
        let (secret_key, t) = crates.random_static s in
        let store : X25519 lib = record {
          public_key = x25519.static_public secret_key;
          secret_key = secret_key;
        } in
        sent
          (add_recipient
            (set_payload (set_key_algorithm (set_content_algorithm new a256gcm) ecdh_es_a256kw)
              plaintext)
            alice (from_x25519 store.public_key))
          (x25519_receiver lib crates store)
          (record { key_id = alice; public_key = from_x25519 store.public_key }) refl refl refl
          (_, _, refl) (listed_alice _) tt
          (x25519_receiver-HoldsX25519 lib crates key_laws store refl) t

    ecies_test-Passes : Passes plaintext (ecies_test lib crates Json json plaintext)
    unfolding ecies_test new_es256k new set_payload set_content_algorithm set_key_algorithm
        add_recipient
    ecies_test-Passes s =
        let ((secret_key, public_key), t) = rng.keypair s in
        let store : Es256k lib = record { public_key = public_key; secret_key = secret_key } in
        sent
          (add_recipient
            (set_payload (set_key_algorithm (set_content_algorithm new a256gcm) ecies_es256k)
              plaintext)
            alice (from_ecies ecies store.public_key))
          (es256k_receiver lib crates store)
          (record { key_id = alice; public_key = from_ecies ecies store.public_key }) refl refl refl
          (_, _, refl) (listed_alice _) (public_key, ecies_public-from_ecies lib laws public_key)
          (es256k_receiver-HoldsSecp256k1 lib crates key_laws store (laws.rng.paired s)) t

    module _
        (flat : (h : ProtectedFlat) → (bytes : Bytes) × (lib.flat_json.to_vec h ≡ some bytes)) where
      encode_plain :
          (jwe : Jwe Json) → IsPlain lib Json jwe → (text : Text) × (encode lib Json jwe ≡ ok text)
      unfolding encode
      encode_plain jwe p =
          let (bytes, e) = flat (
            flat_header (record { alg = none; enc = p.enc })
              (plain_entry p.alg p.epk p.encrypted_key)) in
          (
            base64.encode_string bytes ∙∙ p.encrypted_key ∙∙ p.iv ∙∙ p.ciphertext ∙∙ p.tag,
            rw (p.shape, e) refl,
          )

      compact-Passes : Passes plaintext (compact lib crates Json json plaintext)
      unfolding compact new_x25519 encrypt new set_payload set_content_algorithm set_key_algorithm
          add_recipient
      compact-Passes s =
          let (secret_key, s₁) = crates.random_static s in
          let store : X25519 lib = record {
            public_key = x25519.static_public secret_key;
            secret_key = secret_key;
          } in
          let key = from_x25519 store.public_key in
          let b =
            add_recipient
              (set_payload (set_key_algorithm (set_content_algorithm new a256gcm) ecdh_es)
                plaintext)
              [] key in
          let (jwe, t, built) =
            (build-IsCount lib laws total Json json b s₁ buffer aad written header (tt, tt)).1
              (_, refl) in
          let (text, printed) = encode_plain jwe (
            built-IsPlain lib Json json laws b s₁ jwe refl
              (build-IsBuilt lib Json json laws b s₁ t jwe built)) in
          let parsed =
            from_str-encode-build lib Json json laws b s₁ t jwe text refl built printed in
          let opened =
            decrypt-build lib Json json laws json_laws b s₁ t jwe (x25519_receiver lib crates store)
              (record { key_id = []; public_key = key }) refl refl
              (x25519_receiver-HoldsX25519 lib crates key_laws store refl) built in
          (t, rw (built, printed, parsed, opened) refl)

      -- Where the crates keep their laws and none fails, and JSON writes the plaintext and the headers
      -- and reads them back: each of the tests, with a key pair on X25519, on secp256k1 or derived from
      -- one on Ed25519, and with each key management algorithm, builds a message to its key store and
      -- decrypts it to the plaintext, whatever the plaintext is and whatever the generators give. The
      -- test of a shared secret, with the texts of a key pair on Ed25519, gets the same secret on
      -- both sides.
      pub tests_pass :
          (secret public : Text)
          → IsKeyPair lib crates secret public
          → Passes plaintext (simple lib crates Json json plaintext)
            × Passes plaintext (compact lib crates Json json plaintext)
            × Passes plaintext (default lib crates Json json plaintext)
            × Passes plaintext (wrapped lib crates Json json plaintext)
            × Passes plaintext (ed25519 lib crates Json json plaintext)
            × Passes plaintext (ecies_test lib crates Json json plaintext)
            × Agrees (edx25519 lib crates secret public)
      tests_pass secret public pair = (
        simple-Passes,
        compact-Passes,
        default-Passes,
        wrapped-Passes,
        ed25519-Passes,
        ecies_test-Passes,
        edx25519-Agrees lib crates laws key_laws secret public pair,
      )
