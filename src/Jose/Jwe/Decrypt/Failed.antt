-- ===== src/Jose/Jwe/Decrypt/Failed.antt =====
-- The errors of `decrypt` as a whole.
use mathlib.Core.Path.{subst}
use infosec.Common.{◌≡◌, refl, ◌↔◌, inl, inr, Bytes}
use infosec.Common.{Error, ok, err, message, >>=-eq-err}
use infosec.Foreign.Encodings.{Codec}
use infosec.Foreign.Encryption.{IsArrays}
use infosec.Traits.{Receiver}
use infosec.Jose.Jwe.Key.{SharedSecret}
use infosec.Jose.Jwe.Data.{KeyEncryption, Jwe}
use infosec.Jose.Jwe.Libraries.{Libraries}
use infosec.Jose.Jwe.Decrypt.{find_recipient, sender_key, find_cek, decrypt}
use infosec.Jose.Jwe.Decrypt.Addressed.{IsEntry, find_recipient-eq-ok, sender_key-eq-ok}
use infosec.Jose.Jwe.Decrypt.Opened.{find_cek-eq-ok}
use infosec.Jose.Jwe.Decrypt.Panics.{Reaches}
use infosec.Jose.Jwe.Decrypt.Fatal.{IsMet}
use infosec.Jose.Jwe.Decrypt.Errors.{
  NotAddressed, find_recipient-eq-err, KeyFails, sender_key-eq-err, sender_key_back, CekFails,
  find_cek-eq-err,
}
use infosec.Jose.Jwe.Decrypt.ContentFailed.{ContentFails, ContentFails-decrypt, content_back}

module _ (lib : Libraries) {Json : Type 0} {T : Type 0} (json : Codec T) where
  -- The first step of `decrypt` that fails, and with which error.
  pub data Failed (jwe : Jwe Json) (receiver : Receiver) : Error → Type 0 where
    not_addressed :
        NotAddressed receiver.key_id jwe.recipients
        → Failed jwe receiver (message "no recipient found")
    in_sender :
        (entry : KeyEncryption) (e : Error)
        → IsEntry receiver.key_id jwe.recipients entry
        → KeyFails lib entry.header.epk e
        → Failed jwe receiver e
    in_secret :
        (met : IsMet lib jwe receiver) (e : Error)
        → receiver.shared_secret met.sender ≡ err e
        → Failed jwe receiver e
    in_key :
        (met : IsMet lib jwe receiver) (secret : SharedSecret) (e : Error)
        → receiver.shared_secret met.sender ≡ ok secret
        → CekFails lib met.entry.header.alg met.entry secret e
        → Failed jwe receiver e
    in_content :
        (cek : Bytes) (e : Error)
        → Reaches lib jwe receiver cek
        → ContentFails lib json jwe cek e
        → Failed jwe receiver e

  module _ (arrays : IsArrays lib.arrays) where
    Failed-decrypt :
        (jwe : Jwe Json) (receiver : Receiver) (e : Error)
        → decrypt lib json jwe receiver ≡ err e
        → Failed jwe receiver e
    unfolding decrypt
    Failed-decrypt jwe receiver e h =
        elim (>>=-eq-err (find_recipient receiver.key_id jwe.recipients) _ h) [
          | inl f ↦
              let (n, same) = (find_recipient-eq-err receiver.key_id jwe.recipients e).0 f in
              subst (Failed jwe receiver) same (not_addressed n)
          | inr (entry, e₁, h₁) ↦
              let addressed = (find_recipient-eq-ok receiver.key_id jwe.recipients entry).0 e₁ in
              elim (>>=-eq-err (sender_key lib entry.header.epk) _ h₁) [
                | inl f ↦ in_sender entry e addressed (sender_key-eq-err lib entry.header.epk e f)
                | inr (sender, e₂, h₂) ↦
                    let sent = (sender_key-eq-ok lib entry.header.epk sender).0 e₂ in
                    let met : IsMet lib jwe receiver = record {
                      entry = entry;
                      addressed = addressed;
                      sender = sender;
                      sent = sent;
                    } in
                    elim (>>=-eq-err (receiver.shared_secret sender) _ h₂) [
                      | inl f ↦ in_secret met e f
                      | inr (secret, e₃, h₃) ↦ elim (>>=-eq-err (find_cek lib entry secret) _ h₃) [
                        | inl f ↦
                            in_key met secret e e₃ ((find_cek-eq-err lib arrays entry secret e).0 f)
                        | inr (cek, e₄, h₄) ↦
                            in_content cek e
                              (record {
                                entry = entry;
                                addressed = addressed;
                                sender = sender;
                                sent = sent;
                                secret = secret;
                                derived = e₃;
                                given = (find_cek-eq-ok lib arrays entry secret cek).0 e₄;
                              })
                              (ContentFails-decrypt lib json arrays jwe cek e h₄)
                      ]
                    ]
              ]
        ]

    decrypt-Failed :
        (jwe : Jwe Json) (receiver : Receiver) (e : Error)
        → Failed jwe receiver e
        → decrypt lib json jwe receiver ≡ err e
    unfolding decrypt
    decrypt-Failed jwe receiver e (not_addressed n) =
        rw ((find_recipient-eq-err receiver.key_id jwe.recipients e).1 (n, refl)) refl
    decrypt-Failed jwe receiver e (in_sender entry _ a f) =
        rw
          (
            (find_recipient-eq-ok receiver.key_id jwe.recipients entry).1 a,
            sender_key_back lib entry.header.epk e f,
          )
          refl
    decrypt-Failed jwe receiver e (in_secret m _ f) =
        rw
          (
            (find_recipient-eq-ok receiver.key_id jwe.recipients m.entry).1 m.addressed,
            (sender_key-eq-ok lib m.entry.header.epk m.sender).1 m.sent,
            f,
          )
          refl
    decrypt-Failed jwe receiver e (in_key m secret _ d f) =
        rw
          (
            (find_recipient-eq-ok receiver.key_id jwe.recipients m.entry).1 m.addressed,
            (sender_key-eq-ok lib m.entry.header.epk m.sender).1 m.sent,
            d,
            (find_cek-eq-err lib arrays m.entry secret e).1 f,
          )
          refl
    decrypt-Failed jwe receiver e (in_content cek _ r f) =
        rw
          (
            (find_recipient-eq-ok receiver.key_id jwe.recipients r.entry).1 r.addressed,
            (sender_key-eq-ok lib r.entry.header.epk r.sender).1 r.sent,
            r.derived,
            (find_cek-eq-ok lib arrays r.entry r.secret cek).1 r.given,
          )
          (content_back lib json arrays jwe cek e f)

    -- Where `from_slice` makes arrays only of slices of their length: `decrypt` fails exactly with
    -- the error of the first thing that is wrong: no entry among several has the receiver's key ID;
    -- the ephemeral key in the entry is not base64url, or has neither 32 bytes nor 65; the receiver
    -- fails to derive the secret; the entry lacks what its algorithm needs, or does not give a key
    -- of 32 bytes; or the content is not base64url, is not opened under the key, or is not the JSON
    -- of a value.
    pub decrypt-eq-err :
        (jwe : Jwe Json) (receiver : Receiver) (e : Error)
        → (decrypt lib json jwe receiver ≡ err e) ↔ Failed jwe receiver e
    decrypt-eq-err jwe receiver e = (Failed-decrypt jwe receiver e, decrypt-Failed jwe receiver e)
