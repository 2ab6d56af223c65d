-- ===== src/Jose/Jws/Verify/Keys.antt =====
-- What a JWK accepts, in terms of the signature crates.
use mathlib.Core.Option
use infosec.Common.{◌≡◌, refl, ◌⊎◌, inl, inr, ◌↔◌, true, some, ◌∷◌, ◌++◌}
use infosec.Common.{Bytes, byte, x0, x4, Text, as_bytes, length, ==_iff}
use infosec.Common.{ok, >>=-eq-ok, or_err-eq-ok, guard-eq-ok}
use infosec.Types.{Curve, ed25519, x25519, es256k}
use infosec.Jose.Jwk.{PublicKeyJwk}
use infosec.Jose.Jws.Verify.{Libraries, verify_es256k, verify_eddsa, verify_key}

module _ (lib : Libraries) where
  open lib use {base64, dalek, k256}

  -- The X coordinate holds an Ed25519 key under which the signature is valid for the message.
  pub record EddsaAccepts (key : PublicKeyJwk) (msg : Text) (sig : Bytes) : Type 0 where
    pub curve : key.crv ≡ ed25519
    pub x_bytes : Bytes
    pub x : base64.decode_vec key.x ≡ some x_bytes
    pub size : length x_bytes ≡ 32
    pub verifying_key : dalek.VerifyingKey
    pub built : dalek.key_from_bytes x_bytes ≡ some verifying_key
    pub signature : dalek.Signature
    pub parsed : dalek.signature_from_slice sig ≡ some signature
    pub valid : dalek.verify verifying_key (as_bytes msg) signature ≡ true

  -- The coordinates are those of a secp256k1 key under which the signature, in low-S form, is valid
  -- for the message.
  pub record Es256kAccepts (key : PublicKeyJwk) (msg : Text) (sig : Bytes) : Type 0 where
    pub curve : key.crv ≡ es256k
    pub y_text : Text
    pub has_y : key.y ≡ some y_text
    pub x_bytes : Bytes
    pub x : base64.decode_vec key.x ≡ some x_bytes
    pub y_bytes : Bytes
    pub y : base64.decode_vec y_text ≡ some y_bytes
    pub verifying_key : k256.VerifyingKey
    pub built : k256.key_from_sec1_bytes (byte x0 x4 ∷ (x_bytes ++ y_bytes)) ≡ some verifying_key
    pub signature : k256.Signature
    pub parsed : k256.signature_from_slice sig ≡ some signature
    pub valid :
        k256.verify verifying_key
          (as_bytes msg)
          (Option.get_or (k256.normalize_s signature) signature)
        ≡ true

  abbrev pub Accepts : PublicKeyJwk → Text → Bytes → Type 0
  Accepts key msg sig = EddsaAccepts key msg sig ⊎ Es256kAccepts key msg sig

  verify_eddsa-eq-ok :
      (key : PublicKeyJwk) (msg : Text) (sig : Bytes)
      → key.crv ≡ ed25519
      → (verify_eddsa lib key msg sig ≡ ok tt) ↔ EddsaAccepts key msg sig
  unfolding verify_eddsa
  verify_eddsa-eq-ok key msg sig c = (
    λ h.
        let (x_bytes, e₁, h₁) = >>=-eq-ok _ _ h in
        let (_, e₂, h₂) = >>=-eq-ok _ _ h₁ in
        let (vk, e₃, h₃) = >>=-eq-ok _ _ h₂ in
        let (s, e₄, h₄) = >>=-eq-ok _ _ h₃ in
        record {
          curve = c;
          x_bytes = x_bytes;
          x = or_err-eq-ok _ _ e₁;
          size = (==_iff _ _).0 (guard-eq-ok _ _ e₂);
          verifying_key = vk;
          built = or_err-eq-ok _ _ e₃;
          signature = s;
          parsed = or_err-eq-ok _ _ e₄;
          valid = guard-eq-ok _ _ h₄;
        },
    λ a. rw (a.x, a.size, a.built, a.parsed, a.valid),
  )

  verify_es256k-eq-ok :
      (key : PublicKeyJwk) (msg : Text) (sig : Bytes)
      → key.crv ≡ es256k
      → (verify_es256k lib key msg sig ≡ ok tt) ↔ Es256kAccepts key msg sig
  unfolding verify_es256k
  verify_es256k-eq-ok key msg sig c = (
    λ h.
        let (y, e₀, h₀) = >>=-eq-ok _ _ h in
        let (x_bytes, e₁, h₁) = >>=-eq-ok _ _ h₀ in
        let (y_bytes, e₂, h₂) = >>=-eq-ok _ _ h₁ in
        let (vk, e₃, h₃) = >>=-eq-ok _ _ h₂ in
        let (s, e₄, h₄) = >>=-eq-ok _ _ h₃ in
        record {
          curve = c;
          y_text = y;
          has_y = or_err-eq-ok _ _ e₀;
          x_bytes = x_bytes;
          x = or_err-eq-ok _ _ e₁;
          y_bytes = y_bytes;
          y = or_err-eq-ok _ _ e₂;
          verifying_key = vk;
          built = or_err-eq-ok _ _ e₃;
          signature = s;
          parsed = or_err-eq-ok _ _ e₄;
          valid = guard-eq-ok _ _ h₄;
        },
    λ a. rw (a.has_y, a.x, a.y, a.built, a.parsed, a.valid),
  )

  Accepts-ed25519 :
      (key : PublicKeyJwk) (msg : Text) (sig : Bytes)
      → key.crv ≡ ed25519
      → Accepts key msg sig
      → EddsaAccepts key msg sig
  Accepts-ed25519 key msg sig c (inl a) = a
  Accepts-ed25519 key msg sig c (inr a) = let e = a.curve in cc

  Accepts-es256k :
      (key : PublicKeyJwk) (msg : Text) (sig : Bytes)
      → key.crv ≡ es256k
      → Accepts key msg sig
      → Es256kAccepts key msg sig
  Accepts-es256k key msg sig c (inl a) = let e = a.curve in cc
  Accepts-es256k key msg sig c (inr a) = a

  not_x25519 :
      (key : PublicKeyJwk) (msg : Text) (sig : Bytes) → key.crv ≡ x25519 → ¬ Accepts key msg sig
  not_x25519 key msg sig c (inl a) = let e = a.curve in cc
  not_x25519 key msg sig c (inr a) = let e = a.curve in cc

  verify_key-curve :
      (key : PublicKeyJwk) (msg : Text) (sig : Bytes) (crv : Curve)
      → key.crv ≡ crv
      → (verify_key lib key msg sig ≡ ok tt) ↔ Accepts key msg sig
  unfolding verify_key
  verify_key-curve key msg sig ed25519 c =
      let law = verify_eddsa-eq-ok key msg sig c in
      (
        λ h. inl (law.0 (rw (c, verify_key) at h)),
        λ a. rw (c, verify_key) (law.1 (Accepts-ed25519 key msg sig c a)),
      )
  verify_key-curve key msg sig es256k c =
      let law = verify_es256k-eq-ok key msg sig c in
      (
        λ h. inr (law.0 (rw (c, verify_key) at h)),
        λ a. rw (c, verify_key) (law.1 (Accepts-es256k key msg sig c a)),
      )
  verify_key-curve key msg sig x25519 c =
      (λ h. cc (rw (c, verify_key) at h), λ a. absurd (not_x25519 key msg sig c a))

  -- A key verifies a signature of a message exactly if the scheme of its curve accepts it; a key on
  -- X25519 verifies nothing.
  pub verify_key-eq-ok :
      (key : PublicKeyJwk) (msg : Text) (sig : Bytes)
      → (verify_key lib key msg sig ≡ ok tt) ↔ Accepts key msg sig
  verify_key-eq-ok key msg sig = verify_key-curve key msg sig key.crv refl
