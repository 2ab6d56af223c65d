-- ===== src/Jose/Jws/Safety.antt =====
-- jose/jws.rs: panics of `decode` and of the functions that it calls.
use infosec.Common.{◌≢◌, arith, List, [], ◌∷◌, Bytes, Text, split}
use infosec.Common.{calm_bind-eq-panic, panic, ok-ne-panic, or_err_bind-eq-panic}
use infosec.Foreign.Encodings.{Codec}
use infosec.Jose.Jwk.{PublicKeyJwk}
use infosec.Jose.Jws.Data.{Protected, Signature, get_kid}
use infosec.Jose.Jws.Verify.{
  Libraries, Resolver, verify_es256k, verify_eddsa, verify_key, encode_header, verify_signature,
  verify_signatures, verify,
}
use infosec.Jose.Jws.Compact.{first, from_parts, from_str}
use infosec.Jose.Jws.Builder.{decode}

module _ (lib : Libraries) where
  open lib use {base64, header_json, dalek, k256}

  verify_eddsa-ne-panic :
      (key : PublicKeyJwk) (msg : Text) (sig : Bytes) → verify_eddsa lib key msg sig ≢ panic
  unfolding verify_eddsa
  verify_eddsa-ne-panic key msg sig h = ground arith

  verify_es256k-ne-panic :
      (key : PublicKeyJwk) (msg : Text) (sig : Bytes) → verify_es256k lib key msg sig ≢ panic
  unfolding verify_es256k
  verify_es256k-ne-panic key msg sig h = ground arith

  verify_key-ne-panic :
      (key : PublicKeyJwk) (msg : Text) (sig : Bytes) → verify_key lib key msg sig ≢ panic
  unfolding verify_key
  verify_key-ne-panic key msg sig h =
      ground (arith, verify_eddsa-ne-panic key msg sig, verify_es256k-ne-panic key msg sig)

  encode_header-ne-panic : (header : Protected) → encode_header lib header ≢ panic
  unfolding encode_header
  encode_header-ne-panic header h = ground arith

  module _ (resolver : Resolver) (calm : (kid : Text) → resolver kid ≢ panic) where
    verify_signature-ne-panic :
        (payload : Text) (s : Signature) → verify_signature lib resolver payload s ≢ panic
    unfolding verify_signature
    verify_signature-ne-panic payload s h =
        let (kid, _, h₁) = or_err_bind-eq-panic (get_kid s.protected) _ _ h in
        let (header, _, h₂) =
          calm_bind-eq-panic (encode_header lib s.protected) _ h₁
            (encode_header-ne-panic s.protected) in
        let (sig, _, h₃) = or_err_bind-eq-panic (base64.decode_vec s.signature) _ _ h₂ in
        let (key, _, h₄) = calm_bind-eq-panic (resolver kid) _ h₃ (calm kid) in
        verify_key-ne-panic key _ sig h₄

    verify_signatures-ne-panic :
        (payload : Text) (ss : List Signature) → verify_signatures lib resolver payload ss ≢ panic
    verify_signatures-ne-panic payload [] h = cc
    verify_signatures-ne-panic payload (s ∷ ss) h =
        let (_, _, h₁) =
          calm_bind-eq-panic (verify_signature lib resolver payload s) _ h
            (verify_signature-ne-panic payload s) in
        verify_signatures-ne-panic payload ss h₁

  pub from_parts-ne-panic : (ps : List Text) → from_parts lib ps ≢ panic
  from_parts-ne-panic (a ∷ p ∷ g ∷ []) h = ground arith
  from_parts-ne-panic _ h = cc

  -- Whatever text is received, `decode` returns a token or an error: it does not panic, if the
  -- resolver does not.
  pub decode-ne-panic :
      {T : Type 0} (json : Codec T) (text : Text) (resolver : Resolver)
      → ((kid : Text) → resolver kid ≢ panic)
      → decode lib json text resolver ≢ panic
  unfolding decode from_str verify
  decode-ne-panic json text resolver calm h =
      let (jws, _, h₁) =
        calm_bind-eq-panic (from_parts lib (split b'.' text)) _ h
          (from_parts-ne-panic (split b'.' text)) in
      let (_, _, h₂) =
        calm_bind-eq-panic (verify_signatures lib resolver jws.payload jws.signatures) _ h₁
          (verify_signatures-ne-panic resolver calm jws.payload jws.signatures) in
      let (bytes, _, h₃) = or_err_bind-eq-panic (base64.decode_vec jws.payload) _ _ h₂ in
      let (claims, _, h₄) = or_err_bind-eq-panic (json.from_slice bytes) _ _ h₃ in
      let (s, _, h₅) = or_err_bind-eq-panic (first jws.signatures) _ _ h₄ in ok-ne-panic _ h₅
