-- ===== src/Jose/Jwe/Builder/Fails.antt =====
-- When the key encrypter is not made, or does not encrypt the key for its recipients.
use mathlib.Core.Path.{subst}
use infosec.Common.{◌≡◌, ◌≢◌, refl, inl, inr, List, [], ◌∷◌, Bytes, arith}
use infosec.Common.{Error, err, panic, ok-ne-panic, err-injective}
use infosec.Jose.Jwe.Algorithms.{
  ContentAlgorithm, a256gcm as a256gcm_content, xchacha20_poly1305 as xchacha_content, KeyAlgorithm,
  ecdh_es as ecdh_es_algorithm, ecdh_es_a256kw, ecies_es256k as ecies_algorithm,
}
use infosec.Jose.Jwe.Key.{ecies_public}
use infosec.Jose.Jwe.Libraries.{Libraries}
use infosec.Jose.Jwe.Random.{
  >>=-eq-err, Calm, >>=-Calm, lift_bind-eq-panic, lift-or_err_bind-eq-panic,
}
use infosec.Jose.Jwe.Encrypt.{Recipient, ecdh_a256kw, ecies_es256k}
use infosec.Jose.Jwe.Builder.{
  KeyEncrypter, ecdh_es, ecdh_es_a256_kw, ecies_es256_k, new_ecdh_es, encrypt_each, encrypt_key,
  key_encrypter,
}
use infosec.Jose.Jwe.Builder.Sizes.{Refused, none_set, several}
use infosec.Jose.Jwe.Builder.EntryFails.{
  WrapFails, EncapFails, EachFails, ecdh_a256kw-eq-err, ecies_es256k-eq-err, encrypt_each-eq-err,
  encrypt_each_back, encrypt_each-Calm,
}

module _ (lib : Libraries) where
  open lib use {protected_json, ecies, rng}
  open rng use {State}

  -- The nonce that a content algorithm draws.
  abbrev pub drawn : ContentAlgorithm → State → Bytes
  drawn a256gcm_content s = (rng.aes_nonce s).0
  drawn xchacha_content s = (rng.xchacha_nonce s).0

  pub key_encrypter-eq-err :
      (a : KeyAlgorithm) (rs : List Recipient) (s : State) (e : Error)
      → key_encrypter lib a rs s ≡ err e
      → Refused a rs e
  unfolding key_encrypter new_ecdh_es
  key_encrypter-eq-err a [] s e h = subst (Refused a []) (err-injective _ e h) (none_set a)
  key_encrypter-eq-err ecdh_es_algorithm (r ∷ []) s e h = cc
  key_encrypter-eq-err ecdh_es_algorithm (p ∷ q ∷ rs) s e h =
      subst (Refused ecdh_es_algorithm (p ∷ q ∷ rs)) (err-injective _ e h) (several p q rs)
  key_encrypter-eq-err ecdh_es_a256kw (r ∷ rs) s e h = cc
  key_encrypter-eq-err ecies_algorithm (r ∷ rs) s e h = cc

  pub key_encrypter-Calm : (a : KeyAlgorithm) (rs : List Recipient) → Calm (key_encrypter lib a rs)
  unfolding key_encrypter new_ecdh_es
  key_encrypter-Calm a [] = λ s h. cc
  key_encrypter-Calm ecdh_es_algorithm (r ∷ []) = λ s h. cc
  key_encrypter-Calm ecdh_es_algorithm (p ∷ q ∷ rs) = λ s h. cc
  key_encrypter-Calm ecdh_es_a256kw (r ∷ rs) = λ s h. cc
  key_encrypter-Calm ecies_algorithm (r ∷ rs) = λ s h. cc

  -- The key of some recipient is not encrypted, from the state that the generators are in.
  pub data KeysFail : KeyEncrypter → State → Error → Type 0 where
    wrapping :
        (rs : List Recipient) (key : Bytes) (s : State) (e : Error)
        → EachFails lib (ecdh_a256kw lib key) (WrapFails lib key) rs s e
        → KeysFail (ecdh_es_a256_kw rs key) s e
    encapsulating :
        (rs : List Recipient) (key : Bytes) (s : State) (e : Error)
        → EachFails lib (ecies_es256k lib key) (EncapFails lib key) rs s e
        → KeysFail (ecies_es256_k rs key) s e

  pub encrypt_key-eq-err :
      (k : KeyEncrypter) (s : State) (e : Error) → encrypt_key lib k s ≡ err e → KeysFail k s e
  unfolding encrypt_key
  encrypt_key-eq-err (ecdh_es _ _) s e h = cc
  encrypt_key-eq-err (ecdh_es_a256_kw rs key) s e h =
      elim (>>=-eq-err (encrypt_each lib (ecdh_a256kw lib key) rs) _ s e h) [
        | inl x ↦
            wrapping rs key s e (encrypt_each-eq-err lib _ _ (ecdh_a256kw-eq-err lib key) rs s e x)
        | inr (list, t, _, x) ↦ cc
      ]
  encrypt_key-eq-err (ecies_es256_k rs key) s e h =
      elim (>>=-eq-err (encrypt_each lib (ecies_es256k lib key) rs) _ s e h) [
        | inl x ↦
            encapsulating rs key s e
              (encrypt_each-eq-err lib _ _ (ecies_es256k-eq-err lib key) rs s e x)
        | inr (list, t, _, x) ↦ cc
      ]

  pub encrypt_key_back :
      (k : KeyEncrypter) (s : State) (e : Error) → KeysFail k s e → encrypt_key lib k s ≡ err e
  unfolding encrypt_key
  encrypt_key_back _ s e (wrapping rs key _ _ x) =
      rw (encrypt_each_back lib _ _ (ecdh_a256kw-eq-err lib key) rs s e x) refl
  encrypt_key_back _ s e (encapsulating rs key _ _ x) =
      rw (encrypt_each_back lib _ _ (ecies_es256k-eq-err lib key) rs s e x) refl

  ecdh_a256kw-Calm : (key : Bytes) (r : Recipient) → Calm (ecdh_a256kw lib key r)
  unfolding ecdh_a256kw
  ecdh_a256kw-Calm key r s h =
      let (wrapped, _, h₁) = lift-or_err_bind-eq-panic (lib.key_wrap.wrap _ key) _ _ _ h in
      ok-ne-panic _ h₁

  ecies_public-ne-panic : (r : Recipient) → ecies_public ecies r.public_key ≢ panic
  unfolding ecies_public
  ecies_public-ne-panic r h = ground arith

  ecies_es256k-Calm : (key : Bytes) (r : Recipient) → Calm (ecies_es256k lib key r)
  unfolding ecies_es256k
  ecies_es256k-Calm key r s h =
      let (point, _, h₁) =
        lift_bind-eq-panic (ecies_public ecies r.public_key) _ _ (ecies_public-ne-panic r) h in
      let (secret, _, h₂) = lift-or_err_bind-eq-panic (ecies.encapsulate _ point) _ _ _ h₁ in
      let (sealed, _, h₃) =
        lift-or_err_bind-eq-panic (lib.aes_gcm.encrypt secret _ [] key) _ _ _ h₂ in
      ok-ne-panic _ h₃

  pub encrypt_key-Calm : (k : KeyEncrypter) → Calm (encrypt_key lib k)
  unfolding encrypt_key
  encrypt_key-Calm (ecdh_es _ _) = λ s h. cc
  encrypt_key-Calm (ecdh_es_a256_kw rs key) =
      >>=-Calm _ _ (encrypt_each-Calm lib _ (ecdh_a256kw-Calm key) rs) (λ list s h. cc)
  encrypt_key-Calm (ecies_es256_k rs key) =
      >>=-Calm _ _ (encrypt_each-Calm lib _ (ecies_es256k-Calm key) rs) (λ list s h. cc)
