-- ===== src/Examples/JwePanics.antt =====
-- jose/jwe: a message without a nonce, and builders that are refused.
use infosec.Common.{
  some, ◌↔◌, ◌⊎◌, List, ◌∷◌, ◌++◌, codes, length, ok, err, ◌≡◌, refl, inl, none, [], Bytes, panic,
  arith, message,
}
use infosec.Jose.Jwe.Key.{shared_secret}
use infosec.Jose.Jwe.Data.{Jwe, many}
use infosec.Jose.Jwe.Algorithms.{a256gcm, xchacha20_poly1305, ecdh_es, ecdh_es_a256kw}
use infosec.Jose.Jwe.Key.{from_x, to_vec, try_from}
use infosec.Jose.Jwe.Key.Encoding.{IsKey}
use infosec.Jose.Jwe.Key.Constructed.{Constructed, Constructed-kept}
use infosec.Jose.Jwe.Builder.{direct, new, set_payload}
use infosec.Jose.Jwe.Builder.Sizes.{HasSizes, HasSizes-build}
use infosec.Jose.Jwe.Builder.{JweBuilder, Payload}
use infosec.Jose.Jwe.Builder.Calls.{Call, run, holding, run-new}
use infosec.Jose.Jwe.Decrypt.Reads.{with_headers, decrypt_agrees}
use infosec.Jose.Jwe.Decrypt.Fatal.{Fatal, decrypt-eq-panic}
use infosec.Jose.Jwe.Decrypt.{decrypt}
use infosec.Jose.Jwe.Decrypt.Failed.{Failed, decrypt-eq-err}
use infosec.Jose.Jwe.Decrypt.Panics.{Reaches, IsUnpacked, decrypt_panics}
use infosec.Examples.Encodings.{raw, mark, hex_base64}
use infosec.Examples.Ciphers.{arrays-IsArrays, bit_ecies, bit-IsEcies}
use infosec.Examples.JweMessages.{
  gcm, ones, payload, bob, direct_jwe, direct_built, lawful, flat, message_to, alice_x25519,
  bob_x25519,
}

abbrev no_nonce : Jwe Bytes
no_nonce = record direct_jwe { iv = [] }

no_nonce-Reaches : Reaches gcm no_nonce bob (ones 32)
unfolding shared_secret
no_nonce-Reaches = record {
  entry = direct gcm (ones 32);
  addressed = refl;
  sender = record { x = ones 32; y = none };
  sent = (ones 32, refl, (record { x = refl; y = tt }, refl));
  secret = record { bytes = ones 32 };
  derived = refl;
  given = refl;
}

no_nonce-IsUnpacked : IsUnpacked gcm no_nonce [] (ones 16)
no_nonce-IsUnpacked = record {
  iv_decoded = refl;
  tag_decoded = refl;
  aad = mark;
  aad_decoded = refl;
  ciphertext = payload;
  ciphertext_decoded = refl;
}

-- The message without a nonce is among those that panic.
no_nonce_panics : decrypt gcm raw no_nonce bob ≡ panic
no_nonce_panics =
    decrypt_panics gcm arrays-IsArrays raw no_nonce bob (ones 32) [] (ones 16) no_nonce-Reaches refl
      no_nonce-IsUnpacked (inl (λ e. omega (arith, e)))

decrypt-eq-panic_example : (decrypt gcm raw no_nonce bob ≡ panic) ↔ Fatal gcm no_nonce bob
decrypt-eq-panic_example = decrypt-eq-panic gcm arrays-IsArrays raw no_nonce bob

HasSizes-build_example : HasSizes gcm Bytes 12 1 direct_jwe
HasSizes-build_example =
    HasSizes-build gcm (lawful a256gcm flat) Bytes raw
      (message_to a256gcm ecdh_es (bob_x25519 ∷ [])) 0 2 direct_jwe direct_built

-- Two recipients under ECDH-ES.
abbrev two_direct : JweBuilder (Payload Bytes)
two_direct = message_to a256gcm ecdh_es (alice_x25519 ∷ bob_x25519 ∷ [])

abbrev early : List Call
early = Call.recipient (codes "alice") alice_x25519.public_key ∷ Call.key_algorithm ecdh_es ∷ []

abbrev late : List Call
late = Call.key_algorithm ecdh_es_a256kw ∷ Call.recipient (codes "bob") bob_x25519.public_key ∷ []

run-new_example : run late (set_payload (run early new) payload) ≡ holding payload (early ++ late)
run-new_example = run-new payload early late

Constructed-kept_example :
    IsKey (from_x (ones 32))
    × ((length (to_vec (from_x (ones 32))) ≡ 32) ⊎ (length (to_vec (from_x (ones 32))) ≡ 65))
    × (try_from (to_vec (from_x (ones 32))) ≡ ok (from_x (ones 32)))
Constructed-kept_example =
    Constructed-kept hex_base64 bit_ecies bit-IsEcies (from_x (ones 32))
      (Constructed.of_32 (ones 32) refl)

-- The protected header says that the content is under XChaCha20-Poly1305.
decrypt_agrees_example :
    decrypt gcm raw
      (with_headers gcm raw direct_jwe
        (record { alg = none; enc = xchacha20_poly1305 })
        (some payload)
        direct_jwe.recipients)
      bob
    ≡ decrypt gcm raw direct_jwe bob
decrypt_agrees_example =
    decrypt_agrees gcm raw direct_jwe bob (record { alg = none; enc = xchacha20_poly1305 })
      (some payload) direct_jwe.recipients refl

abbrev to_nobody : Jwe Bytes
to_nobody = record direct_jwe { recipients = many [] }

decrypt-eq-err_example :
    (decrypt gcm raw to_nobody bob ≡ err (message "no recipient found"))
    ↔ Failed gcm raw to_nobody bob (message "no recipient found")
decrypt-eq-err_example =
    decrypt-eq-err gcm raw arrays-IsArrays to_nobody bob (message "no recipient found")
