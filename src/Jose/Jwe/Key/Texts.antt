-- ===== src/Jose/Jwe/Key/Texts.antt =====
-- Keys in base64url.
use infosec.Common.{
  ◌≡◌, refl, sym, ◌∙◌, ap, ◌↔◌, none, some, Bytes, Text, length, Error, ok, message, >>=-eq-ok,
  or_err-eq-ok, ok-injective, ℕ, arith,
}
use infosec.Foreign.Encodings.{Base64}
use infosec.Jose.Jwe.Key.{SecretKey, PublicKey, try_into, secret_key_from_str, public_key_from_str}

-- A slice becomes an array of its own length, and of no other.
pub try_into-eq-ok :
    (n : ℕ) (bytes out : Bytes) (e : Error)
    → (try_into n bytes e ≡ ok out) ↔ ((length bytes ≡ n) × (out ≡ bytes))
try_into-eq-ok n bytes out e = (λ h. ground arith, λ (s, p). rw p (ground arith))

module _ (base64 : Base64) where
  -- The text is base64url of the 32 bytes.
  pub record IsArray32 (text : Text) (x : Bytes) : Type 0 where
    pub decoded : base64.decode_vec text ≡ some x
    pub size : length x ≡ 32

  -- A text is read as a public key exactly if it is base64url of 32 bytes: the X coordinate of the
  -- key, which has no Y coordinate. There is no such text for a key on secp256k1.
  pub public_key_from_str-eq-ok :
      (text : Text) (key : PublicKey)
      → (public_key_from_str base64 text ≡ ok key) ↔ (IsArray32 text key.x × (key.y ≡ none))
  unfolding public_key_from_str
  public_key_from_str-eq-ok text key = (
    λ h.
        let (x, e₁, h₁) = >>=-eq-ok _ _ h in
        let (bytes, e₂, h₂) = >>=-eq-ok _ _ h₁ in
        let (size, p) = (try_into-eq-ok 32 x bytes _).0 e₂ in
        let q = ok-injective _ key h₂ in
        let same : x ≡ key.x = sym p ∙ ap (λ (k : PublicKey). k.x) q in
        (
          record {
            decoded = or_err-eq-ok _ _ e₁ ∙ ap some same;
            size = ap length (sym same) ∙ size;
          },
          sym (ap (λ (k : PublicKey). k.y) q),
        ),
    λ (a, n).
        rw (a.decoded, (try_into-eq-ok 32 key.x key.x (message "invalid key")).1 (a.size, refl))
          (ap (λ y. ok (record { x = key.x; y = y })) (sym n)),
  )

  -- A text is read as a secret key exactly if it is base64url of its 32 bytes.
  pub secret_key_from_str-eq-ok :
      (text : Text) (key : SecretKey)
      → (secret_key_from_str base64 text ≡ ok key) ↔ IsArray32 text key.bytes
  unfolding secret_key_from_str
  secret_key_from_str-eq-ok text key = (
    λ h.
        let (x, e₁, h₁) = >>=-eq-ok _ _ h in
        let (bytes, e₂, h₂) = >>=-eq-ok _ _ h₁ in
        let (size, p) = (try_into-eq-ok 32 x bytes _).0 e₂ in
        let same : x ≡ key.bytes =
          sym p ∙ ap (λ (k : SecretKey). k.bytes) (ok-injective _ key h₂) in
        record { decoded = or_err-eq-ok _ _ e₁ ∙ ap some same; size = ap length (sym same) ∙ size },
    λ a. rw (
      a.decoded,
      (try_into-eq-ok 32 key.bytes key.bytes (message "invalid key")).1 (a.size, refl),
    ),
  )
