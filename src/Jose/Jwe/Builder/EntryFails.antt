-- ===== src/Jose/Jwe/Builder/EntryFails.antt =====
-- When the key for a recipient, or the content, is not encrypted.
use mathlib.Core.Path.{subst}
use infosec.Common.{◌≡◌, refl, ◌↔◌, inl, inr, none, some, List, [], ◌∷◌, Bytes}
use infosec.Common.{Error, ok, err, foreign, caused, ok-ne-err}
use infosec.Foreign.Encodings.{Codec}
use infosec.Foreign.Encryption.{Aead}
use infosec.Jose.Jwe.Key.{ecies_public, to_x25519}
use infosec.Jose.Jwe.Data.{KeyEncryption}
use infosec.Jose.Jwe.Libraries.{Libraries}
use infosec.Jose.Jwe.Random.{
  Random, >>=-eq-err, lift_bind-eq-err, lift-or_err_bind-eq-err, Calm, >>=-Calm,
}
use infosec.Jose.Jwe.Encrypt.{Recipient, ecdh_a256kw, ecies_es256k}
use infosec.Jose.Jwe.Builder.{encrypt_each}

module _ (lib : Libraries) where
  open lib use {aes_gcm, key_wrap, x25519, ecies, rng}
  open rng use {State}

  -- The content key is not wrapped under the secret that was agreed.
  pub data WrapFails (key : Bytes) (r : Recipient) (s : State) : Error → Type 0 where
    unwrapped :
        key_wrap.wrap (x25519.ephemeral_dh (rng.ephemeral_secret s).0 (to_x25519 r.public_key)) key
          ≡ none
        → WrapFails key r s (caused "issue wrapping cek")

  -- The recipient's key is no point of the curve, no secret is agreed with it, or the content key is
  -- not encrypted under the secret.
  pub data EncapFails (key : Bytes) (r : Recipient) (s : State) : Error → Type 0 where
    no_point : (e : Error) → ecies_public ecies r.public_key ≡ err e → EncapFails key r s e
    no_secret :
        (point : ecies.PublicKey)
        → ecies_public ecies r.public_key ≡ ok point
        → ecies.encapsulate (rng.keypair s).0.0 point ≡ none
        → EncapFails key r s foreign
    unsealed :
        (point : ecies.PublicKey) (secret : Bytes)
        → ecies_public ecies r.public_key ≡ ok point
        → ecies.encapsulate (rng.keypair s).0.0 point ≡ some secret
        → aes_gcm.encrypt secret (rng.aes_nonce (rng.keypair s).1).0 [] key ≡ none
        → EncapFails key r s (caused "issue encrypting")

  pub ecdh_a256kw-eq-err :
      (key : Bytes) (r : Recipient) (s : State) (e : Error)
      → (ecdh_a256kw lib key r s ≡ err e) ↔ WrapFails key r s e
  unfolding ecdh_a256kw
  ecdh_a256kw-eq-err key r s e = (
    λ h. elim (lift-or_err_bind-eq-err (key_wrap.wrap _ key) _ _ _ e h) [
      | inl (n, same) ↦ subst (WrapFails key r s) same (unwrapped n)
      | inr (wrapped, w, h₁) ↦ absurd (ok-ne-err _ e h₁)
    ],
    λ f. back e f,
  )
    where
      back : (e : Error) → WrapFails key r s e → ecdh_a256kw lib key r s ≡ err e
      back e (unwrapped n) = rw n refl

  pub ecies_es256k-eq-err :
      (key : Bytes) (r : Recipient) (s : State) (e : Error)
      → (ecies_es256k lib key r s ≡ err e) ↔ EncapFails key r s e
  unfolding ecies_es256k
  ecies_es256k-eq-err key r s e = (
    λ h. elim (lift_bind-eq-err (ecies_public ecies r.public_key) _ _ e h) [
      | inl n ↦ no_point e n
      | inr (point, p, h₁) ↦ elim (lift-or_err_bind-eq-err (ecies.encapsulate _ point) _ _ _ e h₁) [
        | inl (n, same) ↦ subst (EncapFails key r s) same (no_secret point p n)
        | inr (secret, q, h₂) ↦
            elim (lift-or_err_bind-eq-err (aes_gcm.encrypt secret _ [] key) _ _ _ e h₂) [
              | inl (n, same) ↦ subst (EncapFails key r s) same (unsealed point secret p q n)
              | inr (sealed, _, h₃) ↦ absurd (ok-ne-err _ e h₃)
            ]
      ]
    ],
    λ f. back e f,
  )
    where
      back : (e : Error) → EncapFails key r s e → ecies_es256k lib key r s ≡ err e
      back e (no_point _ n) = rw n refl
      back e (no_secret point p n) = rw (p, n) refl
      back e (unsealed point secret p q n) = rw (p, q, n) refl

  -- The first recipient in the list for whom the step fails.
  pub data EachFails (f : Recipient → Random State KeyEncryption)
      (Fails : Recipient → State → Error → Type 0) : List Recipient → State → Error → Type 0 where
    here :
        (r : Recipient) (rs : List Recipient) (s : State) (e : Error)
        → Fails r s e
        → EachFails f Fails (r ∷ rs) s e
    later :
        (r : Recipient) (rs : List Recipient) (s t : State) (e : Error) (entry : KeyEncryption)
        → f r s ≡ ok (entry, t)
        → EachFails f Fails rs t e
        → EachFails f Fails (r ∷ rs) s e

  module _ (f : Recipient → Random State KeyEncryption) (Fails : Recipient → State → Error → Type 0)
      (step : (r : Recipient) (s : State) (e : Error) → (f r s ≡ err e) ↔ Fails r s e) where
    pub encrypt_each-eq-err :
        (rs : List Recipient) (s : State) (e : Error)
        → encrypt_each lib f rs s ≡ err e
        → EachFails f Fails rs s e
    unfolding encrypt_each
    encrypt_each-eq-err [] s e h = cc
    encrypt_each-eq-err (r ∷ rs) s e h = elim (>>=-eq-err (f r) _ s e h) [
      | inl h₁ ↦ here r rs s e ((step r s e).0 h₁)
      | inr (entry, t, p, h₁) ↦ elim (>>=-eq-err (encrypt_each lib f rs) _ t e h₁) [
        | inl h₂ ↦ later r rs s t e entry p (encrypt_each-eq-err rs t e h₂)
        | inr (list, u, _, h₂) ↦ cc
      ]
    ]

    pub encrypt_each_back :
        (rs : List Recipient) (s : State) (e : Error)
        → EachFails f Fails rs s e
        → encrypt_each lib f rs s ≡ err e
    unfolding encrypt_each
    encrypt_each_back _ s e (here r rs _ _ x) = rw ((step r s e).1 x) refl
    encrypt_each_back _ s e (later r rs _ t _ entry p x) = rw (p, encrypt_each_back rs t e x) refl

  pub encrypt_each-Calm :
      (f : Recipient → Random State KeyEncryption)
      → ((r : Recipient) → Calm (f r))
      → (rs : List Recipient) → Calm (encrypt_each lib f rs)
  unfolding encrypt_each
  encrypt_each-Calm f calm [] = λ s h. cc
  encrypt_each-Calm f calm (r ∷ rs) =
      >>=-Calm (f r) _ (calm r)
        (λ entry. >>=-Calm (encrypt_each lib f rs) _ (encrypt_each-Calm f calm rs) (λ list s h. cc))

  -- The payload is not serialized, or not encrypted under the key and the nonce that was drawn.
  pub data SealFails {T : Type 0} (json : Codec T) (aead : Aead) (nonce : Bytes) (plaintext : T)
      (key aad : Bytes) : Error → Type 0 where
    unwritten : json.to_vec plaintext ≡ none → SealFails json aead nonce plaintext key aad foreign
    unsealed :
        (buffer : Bytes)
        → json.to_vec plaintext ≡ some buffer
        → aead.encrypt key nonce aad buffer ≡ none
        → SealFails json aead nonce plaintext key aad (caused "issue encrypting")
