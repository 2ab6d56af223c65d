-- ===== src/Jose/Jwe/Decrypt/Fatal.antt =====
-- jose/jwe/decrypt.rs: the condition for a panic of `decrypt` as a whole.
use infosec.Common.{◌≡◌, inl, inr, ◌↔◌, refl, Bytes}
use infosec.Common.{ok, panic, >>=-eq-panic, calm_bind-eq-panic}
use infosec.Foreign.Encodings.{Codec}
use infosec.Foreign.Encryption.{IsArrays}
use infosec.Traits.{Receiver}
use infosec.Jose.Jwe.Key.{PublicKey, SharedSecret}
use infosec.Jose.Jwe.Data.{KeyEncryption, Jwe}
use infosec.Jose.Jwe.Libraries.{Libraries}
use infosec.Jose.Jwe.Decrypt.{find_recipient, sender_key, find_cek, decrypt}
use infosec.Jose.Jwe.Decrypt.Addressed.{IsEntry, IsSender, find_recipient-eq-ok, sender_key-eq-ok}
use infosec.Jose.Jwe.Decrypt.Opened.{find_cek-eq-ok}
use infosec.Jose.Jwe.Decrypt.Panics.{Reaches, IsUnpacked}
use infosec.Jose.Jwe.Decrypt.Faults.{
  Misfits, KeyMisfits, find_cek-eq-panic, decrypt_content-eq-panic, sender_key-ne-panic,
  find_recipient-ne-panic,
}

module _ (lib : Libraries) {Json : Type 0} where
  -- The receiver finds its entry, and the entry has an ephemeral key.
  pub record IsMet (jwe : Jwe Json) (receiver : Receiver) : Type 0 where
    pub entry : KeyEncryption
    pub addressed : IsEntry receiver.key_id jwe.recipients entry
    pub sender : PublicKey
    pub sent : IsSender lib entry.header.epk sender

  -- The steps at which `decrypt` can panic: the receiver itself does, or the parts of its entry or
  -- of the content are not of the lengths of the arrays that they become.
  pub data Fatal (jwe : Jwe Json) (receiver : Receiver) : Type 0 where
    in_secret :
        (met : IsMet jwe receiver) → receiver.shared_secret met.sender ≡ panic → Fatal jwe receiver
    in_key :
        (met : IsMet jwe receiver) (secret : SharedSecret)
        → receiver.shared_secret met.sender ≡ ok secret
        → KeyMisfits lib met.entry.header.alg met.entry secret
        → Fatal jwe receiver
    in_content :
        (cek iv tag : Bytes)
        → Reaches lib jwe receiver cek
        → IsUnpacked lib jwe iv tag
        → Misfits 32 cek 12 iv 16 tag
        → Fatal jwe receiver

  module _ (arrays : IsArrays lib.arrays) {T : Type 0} (json : Codec T) where
    Fatal-decrypt :
        (jwe : Jwe Json) (receiver : Receiver)
        → decrypt lib json jwe receiver ≡ panic
        → Fatal jwe receiver
    unfolding decrypt
    Fatal-decrypt jwe receiver h =
        let (entry, e₁, h₁) =
          calm_bind-eq-panic (find_recipient receiver.key_id jwe.recipients) _ h
            (find_recipient-ne-panic lib receiver.key_id jwe.recipients) in
        let (sender, e₂, h₂) =
          calm_bind-eq-panic (sender_key lib entry.header.epk) _ h₁
            (sender_key-ne-panic lib entry.header.epk) in
        let met : IsMet jwe receiver = record {
          entry = entry;
          addressed = (find_recipient-eq-ok receiver.key_id jwe.recipients entry).0 e₁;
          sender = sender;
          sent = (sender_key-eq-ok lib entry.header.epk sender).0 e₂;
        } in
        elim (>>=-eq-panic (receiver.shared_secret sender) _ h₂) [
          | inl p ↦ in_secret met p
          | inr (secret, e₃, h₃) ↦ elim (>>=-eq-panic (find_cek lib entry secret) _ h₃) [
            | inl p ↦ in_key met secret e₃ ((find_cek-eq-panic lib arrays entry secret).0 p)
            | inr (cek, e₄, h₄) ↦
                let (iv, tag, u, wrong) = (decrypt_content-eq-panic lib arrays json jwe cek).0 h₄ in
                in_content cek iv tag
                  (record {
                    entry = entry;
                    addressed = met.addressed;
                    sender = sender;
                    sent = met.sent;
                    secret = secret;
                    derived = e₃;
                    given = (find_cek-eq-ok lib arrays entry secret cek).0 e₄;
                  })
                  u wrong
          ]
        ]

    decrypt-Fatal :
        (jwe : Jwe Json) (receiver : Receiver)
        → Fatal jwe receiver
        → decrypt lib json jwe receiver ≡ panic
    unfolding decrypt
    decrypt-Fatal jwe receiver (in_secret m p) =
        rw
          (
            (find_recipient-eq-ok receiver.key_id jwe.recipients m.entry).1 m.addressed,
            (sender_key-eq-ok lib m.entry.header.epk m.sender).1 m.sent,
            p,
          )
          refl
    decrypt-Fatal jwe receiver (in_key m secret d wrong) =
        rw
          (
            (find_recipient-eq-ok receiver.key_id jwe.recipients m.entry).1 m.addressed,
            (sender_key-eq-ok lib m.entry.header.epk m.sender).1 m.sent,
            d,
            (find_cek-eq-panic lib arrays m.entry secret).1 wrong,
          )
          refl
    decrypt-Fatal jwe receiver (in_content cek iv tag r u wrong) =
        rw
          (
            (find_recipient-eq-ok receiver.key_id jwe.recipients r.entry).1 r.addressed,
            (sender_key-eq-ok lib r.entry.header.epk r.sender).1 r.sent,
            r.derived,
            (find_cek-eq-ok lib arrays r.entry r.secret cek).1 r.given,
          )
          ((decrypt_content-eq-panic lib arrays json jwe cek).1 (iv, tag, u, wrong))

    -- Where `from_slice` panics on slices of another length than the array: `decrypt` panics
    -- exactly if the receiver comes to its entry and the ephemeral key in it, and then its own
    -- derivation of the secret panics, or, under ECIES-ES256K, the nonce or the tag in the entry or
    -- the secret has not the length of its array, or the receiver comes to a content encryption
    -- key, and that key, the nonce or the tag of the content has not the length of its array.
    pub decrypt-eq-panic :
        (jwe : Jwe Json) (receiver : Receiver)
        → (decrypt lib json jwe receiver ≡ panic) ↔ Fatal jwe receiver
    decrypt-eq-panic jwe receiver = (Fatal-decrypt jwe receiver, decrypt-Fatal jwe receiver)
