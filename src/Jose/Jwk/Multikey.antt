-- ===== src/Jose/Jwk/Multikey.antt =====
-- Multibase keys through a JWK and back.
use infosec.Common.{◌<◌, ◌≡◌, true, refl, ◌⊎◌, inl, inr, ◌↔◌, Bool, some, ◌++◌, arith}
use infosec.Common.{Bytes, Bytes-discrete, Text, length, take, drop, length-drop, take-append-drop}
use infosec.Common.{Option-cases, holds_iff}
use infosec.Common.{ok, panic, ◌>>=◌}
use infosec.Foreign.Encodings.{Base64, Multibase, IsBase64, IsMultibase}
use infosec.Jose.Jwk.{
  PublicKeyJwk, default, ed25519_codec, x25519_codec, from_key_bytes, from_multibase, to_multibase,
}

module _ (multibase : Multibase) where
  -- The text is a multibase key of 32 bytes behind one of the two codecs.
  pub record IsMultikey (key : Text) (x : Bytes) : Type 0 where
    pub base : multibase.Base
    pub codec : Bytes
    pub decoded : multibase.decode key ≡ some (base, codec ++ x)
    pub known : (codec ≡ ed25519_codec) ⊎ (codec ≡ x25519_codec)
    pub size : length x ≡ 32

module _ (base64 : Base64) (multibase : Multibase) where
  -- The JWK of a key of 32 bytes.
  abbrev pub jwk_of : Bytes → PublicKeyJwk
  jwk_of x = record default { x = base64.encode_string x }

  from_key_bytes-codec :
      (checks : Bool) (codec x : Bytes)
      → (codec ≡ ed25519_codec) ⊎ (codec ≡ x25519_codec)
      → length x ≡ 32
      → from_key_bytes base64 multibase checks (codec ++ x) ≡ ok (jwk_of x)
  unfolding from_key_bytes
  from_key_bytes-codec checks codec x (inl e) h =
      rw e (ground (arith, h, holds_iff (Bytes-discrete ed25519_codec ed25519_codec)))
  from_key_bytes-codec checks codec x (inr e) h =
      rw e (ground (arith, h, holds_iff (Bytes-discrete x25519_codec x25519_codec)))

  from_key_bytes-eq-ok :
      (checks : Bool) (bytes : Bytes) (jwk : PublicKeyJwk)
      → from_key_bytes base64 multibase checks bytes ≡ ok jwk
      → (length bytes ≡ 34)
        × ((take 2 bytes ≡ ed25519_codec) ⊎ (take 2 bytes ≡ x25519_codec))
        × (jwk ≡ jwk_of (drop 2 bytes))
  unfolding from_key_bytes
  from_key_bytes-eq-ok checks bytes jwk h = ground (
    arith,
    holds_iff (Bytes-discrete (take 2 bytes) ed25519_codec),
    holds_iff (Bytes-discrete (take 2 bytes) x25519_codec),
  )

  from_multibase-IsMultikey :
      (checks : Bool) (key : Text) (jwk : PublicKeyJwk)
      → from_multibase base64 multibase checks key ≡ ok jwk
      → (x : Bytes) × IsMultikey multibase key x × (jwk ≡ jwk_of x)
  unfolding from_multibase
  from_multibase-IsMultikey checks key jwk h = elim (Option-cases (multibase.decode key)) [
    | inl e ↦ cc
    | inr ((base, bytes), e) ↦
        let (size, known, built) = from_key_bytes-eq-ok checks bytes jwk (rw e at h) in
        (
          drop 2 bytes,
          record {
            base = base;
            codec = take 2 bytes;
            decoded = rw (take-append-drop, e);
            known = known;
            size = omega (arith, length-drop {0} 2 bytes);
          },
          built,
        )
  ]

  -- With or without overflow checks, a text becomes a JWK exactly if it is a multibase key, in any
  -- base, of one of the two codecs and 32 bytes; the JWK is then an OKP key on Ed25519 whatever the
  -- codec, with those bytes as its X coordinate and nothing else set.
  pub from_multibase-eq-ok :
      (checks : Bool) (key : Text) (jwk : PublicKeyJwk)
      → (from_multibase base64 multibase checks key ≡ ok jwk)
        ↔ ((x : Bytes) × IsMultikey multibase key x × (jwk ≡ jwk_of x))
  unfolding from_multibase
  from_multibase-eq-ok checks key jwk = (
    from_multibase-IsMultikey checks key jwk,
    λ (x, m, e). rw (m.decoded, e) (from_key_bytes-codec checks m.codec x m.known m.size),
  )

  -- The text decodes to fewer than the two bytes of a codec.
  pub record IsShort (key : Text) : Type 0 where
    pub base : multibase.Base
    pub bytes : Bytes
    pub decoded : multibase.decode key ≡ some (base, bytes)
    pub size : length bytes < 2

  from_key_bytes-eq-panic :
      (checks : Bool) (bytes : Bytes)
      → (from_key_bytes base64 multibase checks bytes ≡ panic)
        ↔ ((checks ≡ true) × (length bytes < 2))
  unfolding from_key_bytes
  from_key_bytes-eq-panic checks bytes = (λ h. ground arith, λ p. ground arith)

  -- Reading a key is a panic exactly where overflow is checked and the text is in multibase, but of
  -- fewer than two bytes. No other text is one, whatever its length and its codec.
  pub from_multibase-eq-panic :
      (checks : Bool) (key : Text)
      → (from_multibase base64 multibase checks key ≡ panic) ↔ ((checks ≡ true) × IsShort key)
  unfolding from_multibase
  from_multibase-eq-panic checks key = elim (Option-cases (multibase.decode key)) [
    | inl e ↦ (λ h. cc (rw e at h), λ (c, s). cc (s.decoded))
    | inr ((base, bytes), e) ↦ (
      λ h.
          let (c, n) = (from_key_bytes-eq-panic checks bytes).0 (rw e at h) in
          (c, record { base = base; bytes = bytes; decoded = e; size = n }),
      λ (c, s). rw s.decoded ((from_key_bytes-eq-panic checks s.bytes).1 (c, s.size)),
    )
  ]

module _ (base64 : Base64) (multibase : Multibase) (base64_laws : IsBase64 base64)
    (multibase_laws : IsMultibase multibase) (checks : Bool) where
  -- Where base64url and multibase read back what they wrote: a JWK with an X coordinate of 32
  -- bytes, written as a multibase key, is read back as the OKP key on Ed25519 with that coordinate.
  -- Its other fields are lost.
  pub from_multibase-to_multibase :
      (jwk : PublicKeyJwk) (x : Bytes)
      → jwk.x ≡ base64.encode_string x
      → length x ≡ 32
      → (do key ← to_multibase base64 multibase jwk; from_multibase base64 multibase checks key)
        ≡ ok (record default { x = jwk.x })
  unfolding to_multibase
  from_multibase-to_multibase jwk x e size =
      let key = multibase.encode multibase.base58_btc (ed25519_codec ++ x) in
      let m : IsMultikey multibase key x = record {
        base = multibase.base58_btc;
        codec = ed25519_codec;
        decoded = multibase_laws.decode-encode _ _;
        known = inl refl;
        size = size;
      } in
      rw (e, base64_laws.decode-encode)
        ((from_multibase-eq-ok base64 multibase checks key (jwk_of base64 multibase x)).1
          (x, m, refl))

  -- Where base64url and multibase read back what they wrote: a multibase key that is read and
  -- written again is in base 58, with the same 32 bytes, and has the codec of Ed25519, also where
  -- it had that of X25519.
  pub to_multibase-from_multibase :
      (key : Text) (x : Bytes)
      → IsMultikey multibase key x
      → (do jwk ← from_multibase base64 multibase checks key; to_multibase base64 multibase jwk)
        ≡ ok (multibase.encode multibase.base58_btc (ed25519_codec ++ x))
  unfolding to_multibase
  to_multibase-from_multibase key x m = rw (
    (from_multibase-eq-ok base64 multibase checks key (jwk_of base64 multibase x)).1 (x, m, refl),
    base64_laws.decode-encode,
  )
