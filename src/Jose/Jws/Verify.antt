-- ===== src/Jose/Jws/Verify.antt =====
-- jose/jws.rs: verification by a JWK, and of all signatures of a JWS.
pub mod Keys
pub mod Laws
use mathlib.Core.Option
use infosec.Common.{
  ◌∙∙◌, ℕ, Option, List, [], ◌∷◌, ◌++◌, Bytes, byte, x0, x4, Text, as_bytes, length, ◌==◌,
}
use infosec.Common.{Outcome, ok, err, message, caused, foreign, or_err, guard, ◌>>=◌, ◌>>◌}
use infosec.Types.{ed25519, x25519, es256k}
use infosec.Foreign.Encodings.{Base64, Codec}
use infosec.Foreign.Signatures.{Ed25519, Secp256k1}
use infosec.Jose.Jwk.{PublicKeyJwk}
use infosec.Jose.Jws.Data.{Protected, Signature, Jws, get_kid}

-- The crates that the JWS module calls; `header_json` is `serde_json` at the protected header.
pub record Libraries : Type 1 where
  pub base64 : Base64
  pub header_json : Codec Protected
  pub dalek : Ed25519
  pub k256 : Secp256k1

-- A resolver: from a key ID to the key.
abbrev pub Resolver : Type 0
Resolver = Text → Outcome PublicKeyJwk

module _ (lib : Libraries) where
  open lib use {base64, header_json, dalek, k256}

  -- `PublicKeyJwk::verify_es256k`
  unfoldable pub verify_es256k : PublicKeyJwk → Text → Bytes → Outcome (Unit {0})
  verify_es256k key msg sig = do
    y ← or_err key.y (message "Proof JWT 'y' is invalid")
    x_bytes ← or_err (base64.decode_vec key.x) foreign
    y_bytes ← or_err (base64.decode_vec y) foreign
    let sec1 = byte x0 x4 ∷ (x_bytes ++ y_bytes)
    verifying_key ← or_err (k256.key_from_sec1_bytes sec1) foreign
    signature ← or_err (k256.signature_from_slice sig) foreign
    let normalised = Option.get_or (k256.normalize_s signature) signature
    guard (k256.verify verifying_key (as_bytes msg) normalised) foreign

  -- `PublicKeyJwk::verify_eddsa`
  unfoldable pub verify_eddsa : PublicKeyJwk → Text → Bytes → Outcome (Unit {0})
  verify_eddsa key msg sig_bytes = do
    x_bytes ← or_err (base64.decode_vec key.x) (caused "unable to base64 decode proof JWK 'x'")
    guard (length x_bytes == 32) (message "invalid public key length")
    verifying_key ← or_err (dalek.key_from_bytes x_bytes) (caused "unable to build verifying key")
    signature ← or_err (dalek.signature_from_slice sig_bytes) (caused "unable to build signature")
    guard (dalek.verify verifying_key (as_bytes msg) signature)
        (caused "unable to verify signature")

  -- `PublicKeyJwk::verify`
  unfoldable pub verify_key : PublicKeyJwk → Text → Bytes → Outcome (Unit {0})
  unfolding verify_es256k verify_eddsa
  verify_key key msg sig = elim key.crv [
    | es256k ↦ verify_es256k key msg sig
    | ed25519 ↦ verify_eddsa key msg sig
    | x25519 ↦ err (message "unsupported DSA curve")
  ]

  -- The header as the signing input has it.
  unfoldable pub encode_header : Protected → Outcome Text
  encode_header header = do
    bytes ← or_err (header_json.to_vec header) foreign
    ok (base64.encode_string bytes)

  -- The body of the loop in `Jws::verify`.
  unfoldable pub verify_signature : Resolver → Text → Signature → Outcome (Unit {0})
  unfolding encode_header verify_key get_kid
  verify_signature resolver payload signature = do
    kid ← or_err (get_kid signature.protected) (message "Missing key ID in JWS signature")
    header ← encode_header signature.protected
    sig ← or_err (base64.decode_vec signature.signature) foreign
    public_jwk ← resolver kid
    verify_key public_jwk (header ∙∙ payload) sig

  abbrev pub verify_signatures : Resolver → Text → List Signature → Outcome (Unit {0})
  verify_signatures resolver payload [] = ok tt
  verify_signatures resolver payload (signature ∷ signatures) = do
    verify_signature resolver payload signature
    verify_signatures resolver payload signatures

  -- `Jws::verify`
  unfoldable pub verify : Resolver → Jws → Outcome (Unit {0})
  unfolding verify_signature
  verify resolver jws = verify_signatures resolver jws.payload jws.signatures
