-- ===== src/Jose/Jwe/Decrypt/Errors.antt =====
-- The errors of `decrypt`, by what is wrong with the message.
use mathlib.Core.Path.{subst}
use infosec.Common.{
  ◌≡◌, ◌≢◌, refl, ap, ◌↔◌, inl, inr, Option, none, some, Bytes, Text, length, arith,
}
use infosec.Common.{Error, ok, err, message, caused, >>=-eq-err, or_err_bind-eq-err, ok-ne-err}
use infosec.Foreign.Encryption.{IsArrays}
use infosec.Jose.Jwk.{PublicKeyJwk}
use infosec.Jose.Jwe.Algorithms.{KeyAlgorithm, ecdh_es, ecdh_es_a256kw, ecies_es256k}
use infosec.Jose.Jwe.Key.{SharedSecret, try_from}
use infosec.Jose.Jwe.Data.{KeyEncryption, Recipients, one, many}
use infosec.Jose.Jwe.Libraries.{Libraries}
use infosec.Jose.Jwe.Decrypt.{find, find_recipient, add_y, sender_key, find_cek}
use infosec.Jose.Jwe.Decrypt.Opened.{entry_of}
use infosec.Jose.Jwe.Decrypt.Refusals.{or_err-eq-err, A256kwFails, unwrap_a256kw-eq-err}
use infosec.Jose.Jwe.Decrypt.EciesRefusals.{EciesFails, unwrap_ecies-eq-err, ecies_back}

-- None of several recipients has the receiver's key ID.
abbrev pub NotAddressed : Text → Recipients → Type 0
NotAddressed key_id (one _) = ⊥
NotAddressed key_id (many list) = find key_id list ≡ none

pub find_recipient-eq-err :
    (key_id : Text) (rs : Recipients) (e : Error)
    → (find_recipient key_id rs ≡ err e)
      ↔ (NotAddressed key_id rs × (message "no recipient found" ≡ e))
unfolding find_recipient
find_recipient-eq-err key_id (one r) e = (λ h. absurd (ok-ne-err r e h), λ (n, _). absurd n)
find_recipient-eq-err key_id (many list) e =
    (or_err-eq-err (find key_id list) _, λ (n, same). rw n (ap err same))

try_from-eq-err :
    (val : Bytes) (e : Error)
    → (try_from val ≡ err e)
      ↔ ((length val ≢ 32) × (length val ≢ 65) × (message "invalid public key length" ≡ e))
unfolding try_from
try_from-eq-err val e =
    (λ h. (λ s. ground arith, λ s. ground arith, ground arith), λ (p, q, same). ground arith)

module _ (lib : Libraries) where
  open lib use {base64}

  -- The ephemeral key: a coordinate is not base64url, or the key has neither 32 bytes nor 65.
  pub data KeyFails (epk : PublicKeyJwk) : Error → Type 0 where
    x_undecoded :
        base64.decode_vec epk.x ≡ none
        → KeyFails epk (caused "issue decoding sender public key `x`")
    y_undecoded :
        (x : Bytes) (y : Text)
        → base64.decode_vec epk.x ≡ some x
        → epk.y ≡ some y
        → base64.decode_vec y ≡ none
        → KeyFails epk (caused "issue decoding sender public key `y`")
    key_length :
        (x key : Bytes)
        → base64.decode_vec epk.x ≡ some x
        → add_y lib x epk.y ≡ ok key
        → length key ≢ 32
        → length key ≢ 65
        → KeyFails epk (message "invalid public key length")

  add_y-eq-err :
      (x : Bytes) (y : Option Text) (e : Error)
      → add_y lib x y ≡ err e
      → (text : Text) × (y ≡ some text)
        × (base64.decode_vec text ≡ none)
        × (caused "issue decoding sender public key `y`" ≡ e)
  add_y-eq-err x none e h = absurd (ok-ne-err _ e h)
  add_y-eq-err x (some text) e h = elim (or_err_bind-eq-err (base64.decode_vec text) _ _ h) [
    | inl (n, same) ↦ (text, refl, n, same)
    | inr (y, d, z) ↦ absurd (ok-ne-err _ e z)
  ]

  pub sender_key-eq-err :
      (epk : PublicKeyJwk) (e : Error) → sender_key lib epk ≡ err e → KeyFails epk e
  unfolding sender_key
  sender_key-eq-err epk e h = elim (or_err_bind-eq-err (base64.decode_vec epk.x) _ _ h) [
    | inl (n, same) ↦ subst (KeyFails epk) same (x_undecoded n)
    | inr (x, d, h₁) ↦ elim (>>=-eq-err (add_y lib x epk.y) _ h₁) [
      | inl f ↦
          let (y, has_y, n, same) = add_y-eq-err x epk.y e f in
          subst (KeyFails epk) same (y_undecoded x y d has_y n)
      | inr (key, a, h₂) ↦
          let (p, q, same) = (try_from-eq-err key e).0 h₂ in
          subst (KeyFails epk) same (key_length x key d a p q)
    ]
  ]

  pub sender_key_back :
      (epk : PublicKeyJwk) (e : Error) → KeyFails epk e → sender_key lib epk ≡ err e
  unfolding sender_key
  sender_key_back epk e (x_undecoded n) = rw n refl
  sender_key_back epk e (y_undecoded x y d has_y n) = rw (d, has_y, n) refl
  sender_key_back epk e (key_length x key d a p q) =
      rw (d, a) ((try_from-eq-err key e).1 (p, q, refl))

  -- The content encryption key, by the entry's algorithm. ECDH-ES takes the secret itself.
  abbrev pub CekFails : KeyAlgorithm → KeyEncryption → SharedSecret → Error → Type 0
  CekFails ecdh_es entry secret e = ⊥
  CekFails ecdh_es_a256kw entry secret e = A256kwFails lib entry secret e
  CekFails ecies_es256k entry secret e = EciesFails lib entry secret e

  module _ (arrays : IsArrays lib.arrays) where
    find_cek_errs :
        (alg : KeyAlgorithm) (kid : Option Text) (epk : PublicKeyJwk) (iv tag : Option Text)
        (key : Text) (secret : SharedSecret) (e : Error)
        → (find_cek lib (entry_of alg kid epk iv tag key) secret ≡ err e)
          ↔ CekFails alg (entry_of alg kid epk iv tag key) secret e
    unfolding find_cek
    find_cek_errs ecdh_es kid epk iv tag key secret e = (λ h. ok-ne-err _ e h, λ x. absurd x)
    find_cek_errs ecdh_es_a256kw kid epk iv tag key secret e =
        unwrap_a256kw-eq-err lib (entry_of ecdh_es_a256kw kid epk iv tag key) secret e
    find_cek_errs ecies_es256k kid epk iv tag key secret e = (
      unwrap_ecies-eq-err lib arrays (entry_of ecies_es256k kid epk iv tag key) secret e,
      ecies_back lib arrays (entry_of ecies_es256k kid epk iv tag key) secret e,
    )

    pub find_cek-eq-err :
        (entry : KeyEncryption) (secret : SharedSecret) (e : Error)
        → (find_cek lib entry secret ≡ err e) ↔ CekFails entry.header.alg entry secret e
    find_cek-eq-err entry secret e =
        let header = entry.header in
        find_cek_errs header.alg header.kid header.epk header.iv header.tag entry.encrypted_key
          secret e
