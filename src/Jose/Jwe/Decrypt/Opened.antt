-- ===== src/Jose/Jwe/Decrypt/Opened.antt =====
-- What `decrypt` returns, in terms of the JWE, the receiver and the crates.
use infosec.Common.{◌≡◌, sym, ap, ◌↔◌, Option, some, Bytes, Text}
use infosec.Common.{ok, >>=-eq-ok, or_err-eq-ok, ok-injective}
use infosec.Foreign.Encodings.{Codec}
use infosec.Foreign.Encryption.{IsArrays}
use infosec.Traits.{Receiver}
use infosec.Jose.Jwe.Algorithms.{KeyAlgorithm, ecdh_es, ecdh_es_a256kw, ecies_es256k}
use infosec.Jose.Jwe.Key.{PublicKey, SharedSecret, secret_to_bytes}
use infosec.Jose.Jwk.{PublicKeyJwk}
use infosec.Jose.Jwe.Data.{KeyEncryption, Jwe}
use infosec.Jose.Jwe.Libraries.{Libraries}
use infosec.Jose.Jwe.Decrypt.{find_recipient, sender_key, find_cek, decrypt_content, decrypt}
use infosec.Jose.Jwe.Decrypt.Accepted.{
  GcmOpens, Gives, gcm_decrypt-eq-ok, unwrap_a256kw-eq-ok, unwrap_ecies-eq-ok,
}
use infosec.Jose.Jwe.Decrypt.Addressed.{IsEntry, IsSender, find_recipient-eq-ok, sender_key-eq-ok}

abbrev pub entry_of :
    KeyAlgorithm → Option Text → PublicKeyJwk → Option Text → Option Text → Text → KeyEncryption
entry_of alg kid epk iv tag key = record {
  header = record { alg = alg; kid = kid; epk = epk; iv = iv; tag = tag };
  encrypted_key = key;
}

module _ (lib : Libraries) where
  open lib use {base64}

  module _ (arrays : IsArrays lib.arrays) where
    -- An entry by its fields, for a split on the algorithm.
    find_cek_under :
        (alg : KeyAlgorithm) (kid : Option Text) (epk : PublicKeyJwk) (iv tag : Option Text)
        (key : Text) (secret : SharedSecret) (cek : Bytes)
        → (find_cek lib (entry_of alg kid epk iv tag key) secret ≡ ok cek)
          ↔ Gives lib alg (entry_of alg kid epk iv tag key) secret cek
    unfolding find_cek secret_to_bytes
    find_cek_under ecdh_es kid epk iv tag key secret cek =
        (λ h. sym (ok-injective secret.bytes cek h), λ e. ap ok (sym e))
    find_cek_under ecdh_es_a256kw kid epk iv tag key secret cek =
        unwrap_a256kw-eq-ok lib arrays (entry_of ecdh_es_a256kw kid epk iv tag key) secret cek
    find_cek_under ecies_es256k kid epk iv tag key secret cek =
        unwrap_ecies-eq-ok lib arrays (entry_of ecies_es256k kid epk iv tag key) secret cek

    pub find_cek-eq-ok :
        (entry : KeyEncryption) (secret : SharedSecret) (cek : Bytes)
        → (find_cek lib entry secret ≡ ok cek) ↔ Gives lib entry.header.alg entry secret cek
    find_cek-eq-ok entry secret cek =
        let header = entry.header in
        find_cek_under header.alg header.kid header.epk header.iv header.tag entry.encrypted_key
          secret cek

  module _ {Json : Type 0} {T : Type 0} (json : Codec T) where
    -- The content of the JWE opens under the key, and holds the value.
    pub record ContentOpens (jwe : Jwe Json) (cek : Bytes) (value : T) : Type 0 where
      pub iv : Bytes
      pub iv_decoded : base64.decode_vec jwe.iv ≡ some iv
      pub tag : Bytes
      pub tag_decoded : base64.decode_vec jwe.tag ≡ some tag
      pub aad : Bytes
      pub aad_decoded : base64.decode_vec jwe.aad ≡ some aad
      pub ciphertext : Bytes
      pub ciphertext_decoded : base64.decode_vec jwe.ciphertext ≡ some ciphertext
      pub buffer : Bytes
      pub opens : GcmOpens lib cek iv aad ciphertext tag buffer
      pub parsed : json.from_slice buffer ≡ some value

    -- The receiver finds its entry, agrees on a secret with the sender whose key is in it, has the
    -- content encryption key from the entry, and opens the content.
    pub record IsOpened (jwe : Jwe Json) (receiver : Receiver) (value : T) : Type 0 where
      pub entry : KeyEncryption
      pub addressed : IsEntry receiver.key_id jwe.recipients entry
      pub sender : PublicKey
      pub sent : IsSender lib entry.header.epk sender
      pub secret : SharedSecret
      pub derived : receiver.shared_secret sender ≡ ok secret
      pub cek : Bytes
      pub given : Gives lib entry.header.alg entry secret cek
      pub content : ContentOpens jwe cek value

    module _ (arrays : IsArrays lib.arrays) where
      decrypt_content-eq-ok :
          (jwe : Jwe Json) (cek : Bytes) (value : T)
          → (decrypt_content lib json jwe cek ≡ ok value) ↔ ContentOpens jwe cek value
      unfolding decrypt_content
      decrypt_content-eq-ok jwe cek value = (
        λ h.
            let (iv, e₁, h₁) = >>=-eq-ok _ _ h in
            let (tag, e₂, h₂) = >>=-eq-ok _ _ h₁ in
            let (aad, e₃, h₃) = >>=-eq-ok _ _ h₂ in
            let (ciphertext, e₄, h₄) = >>=-eq-ok _ _ h₃ in
            let (buffer, e₅, h₅) = >>=-eq-ok _ _ h₄ in
            record {
              iv = iv;
              iv_decoded = or_err-eq-ok _ _ e₁;
              tag = tag;
              tag_decoded = or_err-eq-ok _ _ e₂;
              aad = aad;
              aad_decoded = or_err-eq-ok _ _ e₃;
              ciphertext = ciphertext;
              ciphertext_decoded = or_err-eq-ok _ _ e₄;
              buffer = buffer;
              opens = (gcm_decrypt-eq-ok lib arrays cek iv aad ciphertext tag buffer).0 e₅;
              parsed = or_err-eq-ok _ _ h₅;
            },
        λ c. rw (
          c.iv_decoded,
          c.tag_decoded,
          c.aad_decoded,
          c.ciphertext_decoded,
          (gcm_decrypt-eq-ok lib arrays cek c.iv c.aad c.ciphertext c.tag c.buffer).1 c.opens,
          c.parsed,
        ),
      )

      -- Where `from_slice` makes arrays only of slices of their length: `decrypt` returns a value
      -- exactly if the receiver finds its entry, derives a secret with the ephemeral key in it, has
      -- the content encryption key from the entry by the entry's algorithm, and AES-256-GCM opens
      -- the ciphertext under that key, with the associated data, to the JSON of the value. With one
      -- recipient the entry is its entry, whatever the receiver's key ID; among several it is the
      -- first one with that key ID.
      pub decrypt-eq-ok :
          (jwe : Jwe Json) (receiver : Receiver) (value : T)
          → (decrypt lib json jwe receiver ≡ ok value) ↔ IsOpened jwe receiver value
      unfolding decrypt
      decrypt-eq-ok jwe receiver value = (
        λ h.
            let (entry, e₁, h₁) = >>=-eq-ok (find_recipient receiver.key_id jwe.recipients) _ h in
            let (sender, e₂, h₂) = >>=-eq-ok (sender_key lib entry.header.epk) _ h₁ in
            let (secret, e₃, h₃) = >>=-eq-ok (receiver.shared_secret sender) _ h₂ in
            let (cek, e₄, h₄) = >>=-eq-ok (find_cek lib entry secret) _ h₃ in
            record {
              entry = entry;
              addressed = (find_recipient-eq-ok receiver.key_id jwe.recipients entry).0 e₁;
              sender = sender;
              sent = (sender_key-eq-ok lib entry.header.epk sender).0 e₂;
              secret = secret;
              derived = e₃;
              cek = cek;
              given = (find_cek-eq-ok arrays entry secret cek).0 e₄;
              content = (decrypt_content-eq-ok jwe cek value).0 h₄;
            },
        λ o.
            rw
              (
                (find_recipient-eq-ok receiver.key_id jwe.recipients o.entry).1 o.addressed,
                (sender_key-eq-ok lib o.entry.header.epk o.sender).1 o.sent,
                o.derived,
                (find_cek-eq-ok arrays o.entry o.secret o.cek).1 o.given,
              )
              ((decrypt_content-eq-ok jwe o.cek value).1 o.content),
      )
