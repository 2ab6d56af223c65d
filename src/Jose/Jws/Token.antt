-- ===== src/Jose/Jws/Token.antt =====
-- jose/jws.rs: the texts that `decode` accepts, and `decode` after `encode`.
use mathlib.Core.Path.{subst}
use infosec.Common.{◌∙∙◌, ◌≡◌, refl, ◌↔◌, none, some, Bytes, Text, codes, as_bytes}
use infosec.Common.{Outcome, ok, caused, or_err, ◌>>=◌, ◌>>◌, >>=-eq-ok, or_err-eq-ok, ok-injective}
use infosec.Foreign.Encodings.{Codec, IsBase64, IsRoundTrip}
use infosec.Foreign.Encodings.Alphabet.{encode-Without_dot}
use infosec.Traits.{Signer}
use infosec.Jose.Jwk.{PublicKeyJwk}
use infosec.Jose.Jws.Data.{key_id, Protected, Jws, Jwt, get_kid}
use infosec.Jose.Jws.Verify.{Libraries, Resolver, encode_header, verify}
use infosec.Jose.Jws.Verify.Keys.{Accepts}
use infosec.Jose.Jws.Verify.Laws.{IsVerified, verify-eq-ok}
use infosec.Jose.Jws.Compact.{from_str}
use infosec.Jose.Jws.Compact.RoundTrip.{IsCompact, single, from_str-eq-ok}
use infosec.Jose.Jws.Builder.{encode, decode}

-- A header that has a signer's algorithm, a type and a key ID, and nothing else.
abbrev pub token_header : Signer → Text → Text → Protected
token_header signer typ kid = record {
  alg = signer.algorithm;
  typ = typ;
  key = key_id kid;
  x5c = none;
  trust_chain = none;
}

module _ (lib : Libraries) {T : Type 0} (json : Codec T) where
  open lib use {base64, header_json}

  -- The text is a compact JWS whose signature is verified, over claims in JSON.
  pub record IsToken (resolver : Resolver) (text : Text) (jwt : Jwt T) : Type 0 where
    pub payload : Text
    pub signature : Text
    pub compact : IsCompact lib text jwt.header payload signature
    pub verified :
        IsVerified lib resolver payload (record { protected = jwt.header; signature = signature })
    pub bytes : Bytes
    pub decoded : base64.decode_vec payload ≡ some bytes
    pub parsed : json.from_slice bytes ≡ some jwt.claims

  -- What `decode` does with a JWS of one signature once it is parsed.
  abbrev read_single : Resolver → Protected → Text → Text → Outcome (Jwt T)
  read_single resolver protected payload signature = do
    verify lib resolver (single lib protected payload signature)
    bytes ← or_err (base64.decode_vec payload) (caused "issue decoding claims")
    claims ← or_err (json.from_slice bytes) (caused "issue deserializing claims")
    ok (record { header = protected; claims = claims })

  decode-single :
      (resolver : Resolver) (text : Text) (protected : Protected) (payload signature : Text)
      → from_str lib text ≡ ok (single lib protected payload signature)
      → decode lib json text resolver ≡ read_single resolver protected payload signature
  unfolding decode
  decode-single resolver text protected payload signature e = rw e

  decode_parses :
      (resolver : Resolver) (text : Text) (jwt : Jwt T)
      → decode lib json text resolver ≡ ok jwt
      → (jws : Jws) × (from_str lib text ≡ ok jws)
  unfolding decode
  decode_parses resolver text jwt h =
      let (jws, e, _) = >>=-eq-ok (from_str lib text) _ h in (jws, e)

  IsToken-read :
      (resolver : Resolver) (text : Text) (protected : Protected) (payload signature : Text)
      (jwt : Jwt T)
      → IsCompact lib text protected payload signature
      → read_single resolver protected payload signature ≡ ok jwt
      → IsToken resolver text jwt
  IsToken-read resolver text protected payload signature jwt c h =
      let jws = single lib protected payload signature in
      let (_, v, h₁) = >>=-eq-ok (verify lib resolver jws) _ h in
      let (bytes, e₂, h₂) =
        >>=-eq-ok (or_err (base64.decode_vec payload) (caused "issue decoding claims")) _ h₁ in
      let (claims, e₃, h₃) =
        >>=-eq-ok (or_err (json.from_slice bytes) (caused "issue deserializing claims")) _ h₂ in
      subst (IsToken resolver text) (ok-injective _ _ h₃) (record {
        payload = payload;
        signature = signature;
        compact = c;
        verified = ((verify-eq-ok lib resolver jws).0 v).0;
        bytes = bytes;
        decoded = or_err-eq-ok _ _ e₂;
        parsed = or_err-eq-ok _ _ e₃;
      })

  IsToken-decode :
      (resolver : Resolver) (text : Text) (jwt : Jwt T)
      → decode lib json text resolver ≡ ok jwt
      → IsToken resolver text jwt
  IsToken-decode resolver text jwt h =
      let (jws, e) = decode_parses resolver text jwt h in
      let (protected, payload, signature, c, s) = (from_str-eq-ok lib text jws).0 e in
      IsToken-read resolver text protected payload signature jwt c
        (rw (decode-single resolver text protected payload signature (rw s at e)) at h)

  decode-IsToken :
      (resolver : Resolver) (text : Text) (jwt : Jwt T)
      → IsToken resolver text jwt
      → decode lib json text resolver ≡ ok jwt
  decode-IsToken resolver text jwt t =
      let jws = single lib jwt.header t.payload t.signature in
      let e =
        (from_str-eq-ok lib text jws).1 (jwt.header, t.payload, t.signature, t.compact, refl) in
      rw (
        decode-single resolver text jwt.header t.payload t.signature e,
        (verify-eq-ok lib resolver jws).1 (t.verified, tt),
        t.decoded,
        t.parsed,
      )

  -- `decode` accepts exactly the texts in compact form whose signature the key named in the header
  -- accepts and whose payload is base64url of JSON claims; it returns that header and those claims.
  pub decode-eq-ok :
      (resolver : Resolver) (text : Text) (jwt : Jwt T)
      → (decode lib json text resolver ≡ ok jwt) ↔ IsToken resolver text jwt
  decode-eq-ok resolver text jwt =
      (IsToken-decode resolver text jwt, decode-IsToken resolver text jwt)

  -- The resolver has the signer's key, and the key accepts what the signer signs.
  pub record Knows (resolver : Resolver) (signer : Signer) : Type 0 where
    pub kid : Text
    pub method : signer.verification_method ≡ ok kid
    pub key : PublicKeyJwk
    pub resolved : resolver kid ≡ ok key
    pub accepted :
        (msg : Text) (sig : Bytes)
        → signer.try_sign (as_bytes msg) ≡ ok sig
        → Accepts lib key msg sig

  -- The signing input and the token made of its three parts, before the parts are in base64url.
  abbrev pub signing_input : Bytes → Bytes → Text
  signing_input header payload = base64.encode_string header ∙∙ base64.encode_string payload

  abbrev pub token : Bytes → Bytes → Bytes → Text
  token header payload sig =
      base64.encode_string header ∙∙ base64.encode_string payload ∙∙ base64.encode_string sig

  module _ (base64_laws : IsBase64 base64) (header_laws : IsRoundTrip header_json)
      (json_laws : IsRoundTrip json) where
    -- Where base64url and both JSON formats read back what they wrote: a payload that a signer
    -- signs, whose key the resolver has and which accepts what the signer signs, becomes a token of
    -- three parts, and `decode` of the token gives the payload back, under a header that has the
    -- signer's algorithm, the type `jwt` and the signer's key ID, and nothing else. The header and
    -- the payload must be serialized, and the signer must sign.
    pub decode-encode :
        (resolver : Resolver) (signer : Signer) (payload : T) (known : Knows resolver signer)
        (header_bytes payload_bytes sig : Bytes)
        → header_json.to_vec (token_header signer (codes "jwt") known.kid) ≡ some header_bytes
        → json.to_vec payload ≡ some payload_bytes
        → signer.try_sign (as_bytes (signing_input header_bytes payload_bytes)) ≡ ok sig
        → (encode lib json payload signer ≡ ok (token header_bytes payload_bytes sig))
          × (decode lib json (token header_bytes payload_bytes sig) resolver
              ≡ ok (record {
                header = token_header signer (codes "jwt") known.kid;
                claims = payload;
              }))
    unfolding encode
    decode-encode resolver signer payload known header_bytes payload_bytes sig h p s = (
      rw (known.method, h, p, s) (rw (h, encode_header)),
      decode-IsToken resolver _ _ (record {
        payload = base64.encode_string payload_bytes;
        signature = base64.encode_string sig;
        compact = record {
          header = base64.encode_string header_bytes;
          parts = refl;
          header_dotless = encode-Without_dot base64_laws header_bytes;
          payload_dotless = encode-Without_dot base64_laws payload_bytes;
          signature_dotless = encode-Without_dot base64_laws sig;
          bytes = header_bytes;
          decoded = base64_laws.decode-encode header_bytes;
          parsed = header_laws.from_slice-to_vec _ _ h;
        };
        verified = record {
          kid = known.kid;
          has_kid = unfold get_kid in refl;
          header = header_bytes;
          serialized = h;
          sig = sig;
          decoded = base64_laws.decode-encode sig;
          key = known.key;
          resolved = known.resolved;
          accepted = known.accepted _ _ s;
        };
        bytes = payload_bytes;
        decoded = base64_laws.decode-encode payload_bytes;
        parsed = json_laws.from_slice-to_vec _ _ p;
      }),
    )
