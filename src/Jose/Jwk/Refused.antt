-- ===== src/Jose/Jwk/Refused.antt =====
-- The texts that are no multibase key, and what `from_multibase` does with each.
use native.Mathlib.Decide.{ℕ_discrete}
use mathlib.Core.Path.{subst}
use infosec.Common.{◌<◌, ◌≡◌, ◌≢◌, true, refl, ◌↔◌, inl, inr, Bool, none, some, arith}
use infosec.Common.{Bytes, Bytes-discrete, Text, length, take, Option-cases, holds_iff}
use infosec.Common.{Error, err, panic, message, caused, err-injective}
use infosec.Foreign.Encodings.{Base64, Multibase}
use infosec.Jose.Jwk.{ed25519_codec, x25519_codec, from_key_bytes, from_multibase}
use infosec.Jose.Jwk.Multikey.{IsShort, from_multibase-eq-panic}

module _ (base64 : Base64) (multibase : Multibase) where
  -- What is wrong with the bytes of a key. With overflow checks, fewer than two are a panic.
  pub data BadKey (checks : Bool) (bytes : Bytes) : Error → Type 0 where
    bad_length :
        length bytes ≢ 34
        → ((checks ≡ true) → ¬ (length bytes < 2))
        → BadKey checks bytes (message "key is not 32 bytes long")
    bad_codec :
        length bytes ≡ 34
        → take 2 bytes ≢ ed25519_codec
        → take 2 bytes ≢ x25519_codec
        → BadKey checks bytes (message "not Ed25519")

  pub data Refused (checks : Bool) (key : Text) : Error → Type 0 where
    undecoded : multibase.decode key ≡ none → Refused checks key (caused "issue decoding key")
    bad_key :
        (base : multibase.Base) (bytes : Bytes) (e : Error)
        → multibase.decode key ≡ some (base, bytes)
        → BadKey checks bytes e
        → Refused checks key e

  from_key_bytes-BadKey :
      (checks : Bool) (bytes : Bytes) (e : Error)
      → BadKey checks bytes e
      → from_key_bytes base64 multibase checks bytes ≡ err e
  unfolding from_key_bytes
  from_key_bytes-BadKey checks bytes e (bad_length n s) = ground arith
  from_key_bytes-BadKey checks bytes e (bad_codec n a b) = ground (
    arith,
    holds_iff (Bytes-discrete (take 2 bytes) ed25519_codec),
    holds_iff (Bytes-discrete (take 2 bytes) x25519_codec),
  )

  length_refused :
      (checks : Bool) (bytes : Bytes) (e : Error)
      → from_key_bytes base64 multibase checks bytes ≡ err e
      → length bytes ≢ 34
      → (message "key is not 32 bytes long" ≡ e) × ((checks ≡ true) → ¬ (length bytes < 2))
  unfolding from_key_bytes
  length_refused checks bytes e h n = (ground arith, λ c l. ground arith)

  codec_refused :
      (checks : Bool) (bytes : Bytes) (e : Error)
      → from_key_bytes base64 multibase checks bytes ≡ err e
      → length bytes ≡ 34
      → (message "not Ed25519" ≡ e) × (take 2 bytes ≢ ed25519_codec) × (take 2 bytes ≢ x25519_codec)
  unfolding from_key_bytes
  codec_refused checks bytes e h n = ground (
    arith,
    holds_iff (Bytes-discrete (take 2 bytes) ed25519_codec),
    holds_iff (Bytes-discrete (take 2 bytes) x25519_codec),
  )

  BadKey-from_key_bytes :
      (checks : Bool) (bytes : Bytes) (e : Error)
      → from_key_bytes base64 multibase checks bytes ≡ err e
      → BadKey checks bytes e
  BadKey-from_key_bytes checks bytes e h = elim (ℕ_discrete (length bytes) 34) [
    | yes n ↦
        let (same, a, b) = codec_refused checks bytes e h n in
        subst (BadKey checks bytes) same (bad_codec n a b)
    | no n ↦
        let (same, s) = length_refused checks bytes e h n in
        subst (BadKey checks bytes) same (bad_length n s)
  ]

  -- Reading a key fails exactly with the error of what is wrong first: the text is not in multibase,
  -- its bytes are not 34, or the first two are neither codec. It panics exactly where overflow is
  -- checked and the text is in multibase, but of fewer than two bytes; without the checks that is
  -- the error of a wrong length.
  pub from_multibase_fails :
      (checks : Bool) (key : Text)
      → ((e : Error) → (from_multibase base64 multibase checks key ≡ err e) ↔ Refused checks key e)
        × ((from_multibase base64 multibase checks key ≡ panic)
            ↔ ((checks ≡ true) × IsShort base64 multibase key))
  unfolding from_multibase
  from_multibase_fails checks key = (
    λ e. (
      λ h. elim (Option-cases (multibase.decode key)) [
        | inl n ↦ subst (Refused checks key) (err-injective _ e (rw n at h)) (undecoded n)
        | inr ((base, bytes), d) ↦
            bad_key base bytes e d (BadKey-from_key_bytes checks bytes e (rw d at h))
      ],
      λ r. refuse e r,
    ),
    from_multibase-eq-panic base64 multibase checks key,
  )
    where
      refuse :
          (e : Error) → Refused checks key e → from_multibase base64 multibase checks key ≡ err e
      refuse e (undecoded n) = rw n refl
      refuse e (bad_key base bytes _ d b) = rw d (from_key_bytes-BadKey checks bytes e b)
