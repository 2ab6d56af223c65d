-- ===== src/Jose/Serde/Sent.antt =====
-- jose/jwe.rs: a JWE from the builder to the receiver as JSON.
use infosec.Common.{◌≡◌, sym, ap, ◌∙◌, none, some}
use infosec.Common.{ok, foreign, or_err, ◌>>=◌}
use infosec.Foreign.Encodings.{Codec, IsRoundTrip}
use infosec.Foreign.Json.{Json, JsonText, IsJsonText}
use infosec.Traits.{Receiver}
use infosec.Jose.Jwe.Algorithms.{a256gcm}
use infosec.Jose.Jwe.Data.{Jwe}
use infosec.Jose.Jwe.Libraries.{Libraries, AreLawful}
use infosec.Jose.Jwe.Encrypt.{Recipient}
use infosec.Jose.Jwe.Builder.{JweBuilder, Payload, build}
use infosec.Jose.Jwe.Builder.Built.{build-IsBuilt}
use infosec.Jose.Jwe.Decrypt.{decrypt}
use infosec.Jose.Jwe.Opening.{addressee, Holds}
use infosec.Jose.Jwe.Delivery.{decrypt-build}
use infosec.Jose.Serde.Encrypted.{write_jwe, jwe_codec}
use infosec.Jose.Serde.Encrypted.Back.{kept, read_jwe-write_jwe}

-- Without a shared unprotected header nothing is lost.
read_plain :
    (text : JsonText)
    → IsJsonText text
    → (jwe : Jwe Json) → jwe.unprotected ≡ none
    → (jwe_codec text).from_slice (text.print (write_jwe jwe)) ≡ some jwe
read_plain text laws jwe plain = rw (laws.parse-print (write_jwe jwe)) (
    read_jwe-write_jwe jwe
    ∙ ap (λ o. some (record jwe { unprotected = o })) (ap kept plain ∙ sym plain))

module _ (lib : Libraries) (laws : AreLawful lib) (text : JsonText) (text_laws : IsJsonText text)
    {T : Type 0} (json : Codec T) where
  open lib use {rng}

  -- Where the crates keep their laws and JSON reads back what it wrote: if `build` made a JWE of a
  -- payload with A256GCM for a list of recipients, under any key management algorithm, then it is
  -- read back from its JSON, and a receiver that has the private key of the recipient it is
  -- addressed as decrypts what was read to the payload.
  pub decrypt-from_slice-build :
      IsRoundTrip json
      → (b : JweBuilder (Payload T)) (s t : rng.State) (jwe : Jwe Json) (receiver : Receiver)
        (r : Recipient)
      → b.content_algorithm ≡ a256gcm
      → addressee b.key_algorithm receiver.key_id b.recipients ≡ some r
      → Holds lib b.key_algorithm receiver r.public_key
      → build lib Json json b s ≡ ok (jwe, t)
      → (do
        received ← or_err ((jwe_codec text).from_slice (text.print (write_jwe jwe))) foreign
        decrypt lib json received receiver)
        ≡ ok b.payload.value
  decrypt-from_slice-build json_laws b s t jwe receiver r gcm a held h =
      let built = build-IsBuilt lib Json json laws b s t jwe h in
      rw (read_plain text text_laws jwe built.unprotected)
        (decrypt-build lib Json json laws json_laws b s t jwe receiver r gcm a held h)
