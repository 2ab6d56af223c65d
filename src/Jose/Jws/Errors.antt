-- ===== src/Jose/Jws/Errors.antt =====
-- jose/jws.rs: the errors of `decode`, by what is wrong with the text.
use mathlib.Core.Path.{subst}
use infosec.Common.{
  ◌≡◌, ◌≢◌, refl, ap, ◌∙◌, ◌↔◌, inl, inr, none, some, List, [], ◌∷◌, Bytes, Text, split, ◌∙∙◌,
}
use infosec.Common.{
  Error, ok, err, message, caused, foreign, >>=-eq-err, or_err_bind-eq-err, err-injective,
  ok-ne-err, Outcome-cases,
}
use infosec.Foreign.Encodings.{Codec}
use infosec.Jose.Jwk.{PublicKeyJwk}
use infosec.Jose.Jws.Data.{Protected, get_kid}
use infosec.Jose.Jws.Verify.{
  Libraries, Resolver, verify_key, encode_header, verify_signature, verify,
}
use infosec.Jose.Jws.Compact.{from_parts, from_str}
use infosec.Jose.Jws.Compact.RoundTrip.{single, from_str-eq-ok}
use infosec.Jose.Jws.Safety.{from_parts-ne-panic}
use infosec.Jose.Jws.Builder.{decode}

module _ (lib : Libraries) where
  open lib use {base64, header_json}

  -- What is wrong with the pieces between the dots.
  pub data Malformed : List Text → Error → Type 0 where
    pieces :
        (ps : List Text)
        → ((h p s : Text) → ps ≢ h ∷ p ∷ s ∷ [])
        → Malformed ps (message "invalid Compact JWS format")
    undecoded :
        (h p s : Text)
        → base64.decode_vec h ≡ none
        → Malformed (h ∷ p ∷ s ∷ []) (caused "issue decoding header")
    unread :
        (h p s : Text) (bytes : Bytes)
        → base64.decode_vec h ≡ some bytes
        → header_json.from_slice bytes ≡ none
        → Malformed (h ∷ p ∷ s ∷ []) (caused "issue deserializing header")

  from_parts-Malformed : (ps : List Text) (e : Error) → Malformed ps e → from_parts lib ps ≡ err e
  from_parts-Malformed [] e (pieces _ n) = refl
  from_parts-Malformed (a ∷ []) e (pieces _ n) = refl
  from_parts-Malformed (a ∷ b ∷ []) e (pieces _ n) = refl
  from_parts-Malformed (a ∷ b ∷ c ∷ []) e (pieces _ n) = absurd (n a b c refl)
  from_parts-Malformed (a ∷ b ∷ c ∷ d ∷ r) e (pieces _ n) = refl
  from_parts-Malformed _ e (undecoded h p s d) = rw d refl
  from_parts-Malformed _ e (unread h p s bytes d r) = rw (d, r) refl

  Malformed-from_parts : (ps : List Text) (e : Error) → from_parts lib ps ≡ err e → Malformed ps e
  Malformed-from_parts [] e x =
      subst (Malformed []) (err-injective _ _ x) (pieces [] (λ h p s q. cc))
  Malformed-from_parts (a ∷ []) e x =
      subst (Malformed (a ∷ [])) (err-injective _ _ x) (pieces (a ∷ []) (λ h p s q. cc))
  Malformed-from_parts (a ∷ b ∷ []) e x =
      subst (Malformed (a ∷ b ∷ [])) (err-injective _ _ x) (pieces (a ∷ b ∷ []) (λ h p s q. cc))
  Malformed-from_parts (a ∷ b ∷ c ∷ []) e x =
      elim (or_err_bind-eq-err (base64.decode_vec a) _ _ x) [
        | inl (n, same) ↦ subst (Malformed (a ∷ b ∷ c ∷ [])) same (undecoded a b c n)
        | inr (bytes, d, y) ↦ elim (or_err_bind-eq-err (header_json.from_slice bytes) _ _ y) [
          | inl (n, same) ↦ subst (Malformed (a ∷ b ∷ c ∷ [])) same (unread a b c bytes d n)
          | inr (p, r, z) ↦ absurd (ok-ne-err _ e z)
        ]
      ]
  Malformed-from_parts (a ∷ b ∷ c ∷ d ∷ r) e x =
      subst (Malformed (a ∷ b ∷ c ∷ d ∷ r)) (err-injective _ _ x)
        (pieces (a ∷ b ∷ c ∷ d ∷ r) (λ h p s q. cc))

  -- What is wrong with the only signature, for the payload that it is on.
  module _ (resolver : Resolver) (payload : Text) where
    pub data Unverified (protected : Protected) (signature : Text) : Error → Type 0 where
      keyless :
          get_kid protected ≡ none
          → Unverified protected signature (message "Missing key ID in JWS signature")
      unwritten :
          (kid : Text)
          → get_kid protected ≡ some kid
          → header_json.to_vec protected ≡ none
          → Unverified protected signature foreign
      undecoded :
          (kid header : Text)
          → get_kid protected ≡ some kid
          → encode_header lib protected ≡ ok header
          → base64.decode_vec signature ≡ none
          → Unverified protected signature foreign
      unresolved :
          (kid header : Text) (sig : Bytes) (e : Error)
          → get_kid protected ≡ some kid
          → encode_header lib protected ≡ ok header
          → base64.decode_vec signature ≡ some sig
          → resolver kid ≡ err e
          → Unverified protected signature e
      unaccepted :
          (kid header : Text) (sig : Bytes) (key : PublicKeyJwk) (e : Error)
          → get_kid protected ≡ some kid
          → encode_header lib protected ≡ ok header
          → base64.decode_vec signature ≡ some sig
          → resolver kid ≡ ok key
          → verify_key lib key (header ∙∙ payload) sig ≡ err e
          → Unverified protected signature e

    encode_header-eq-err :
        (p : Protected) (e : Error)
        → encode_header lib p ≡ err e
        → (header_json.to_vec p ≡ none) × (foreign ≡ e)
    unfolding encode_header
    encode_header-eq-err p e x = elim (or_err_bind-eq-err (header_json.to_vec p) _ _ x) [
      | inl n ↦ n
      | inr (bytes, d, y) ↦ absurd (ok-ne-err _ e y)
    ]

    Unverified-verify_signature :
        (p : Protected) (s : Text) (e : Error)
        → verify_signature lib resolver payload (record { protected = p; signature = s }) ≡ err e
        → Unverified p s e
    unfolding verify_signature
    Unverified-verify_signature p s e x = elim (or_err_bind-eq-err (get_kid p) _ _ x) [
      | inl (n, same) ↦ subst (Unverified p s) same (keyless n)
      | inr (kid, k, y) ↦ elim (>>=-eq-err (encode_header lib p) _ y) [
        | inl f ↦
            let (n, same) = encode_header-eq-err p e f in
            subst (Unverified p s) same (unwritten kid k n)
        | inr (header, h, z) ↦ elim (or_err_bind-eq-err (base64.decode_vec s) _ _ z) [
          | inl (n, same) ↦ subst (Unverified p s) same (undecoded kid header k h n)
          | inr (sig, d, w) ↦ elim (>>=-eq-err (resolver kid) _ w) [
            | inl f ↦ unresolved kid header sig e k h d f
            | inr (key, r, v) ↦ unaccepted kid header sig key e k h d r v
          ]
        ]
      ]
    ]

    verify_signature-Unverified :
        (p : Protected) (s : Text) (e : Error)
        → Unverified p s e
        → verify_signature lib resolver payload (record { protected = p; signature = s }) ≡ err e
    unfolding verify_signature
    verify_signature-Unverified p s e (keyless n) = rw n refl
    verify_signature-Unverified p s e (unwritten kid k n) = rw k (unfold encode_header in rw n refl)
    verify_signature-Unverified p s e (undecoded kid header k h n) = rw (k, h, n) refl
    verify_signature-Unverified p s e (unresolved kid header sig _ k h d f) = rw (k, h, d, f) refl
    verify_signature-Unverified p s e (unaccepted kid header sig key _ k h d r v) =
        rw (k, h, d, r) v

  module _ {T : Type 0} (json : Codec T) (resolver : Resolver) where
    -- The first step of `decode` that fails, and with which error.
    pub data Rejected (text : Text) : Error → Type 0 where
      malformed : (e : Error) → Malformed (split b'.' text) e → Rejected text e
      unverified :
          (protected : Protected) (payload signature : Text) (e : Error)
          → from_str lib text ≡ ok (single lib protected payload signature)
          → Unverified resolver payload protected signature e
          → Rejected text e
      claims_undecoded :
          (protected : Protected) (payload signature : Text)
          → from_str lib text ≡ ok (single lib protected payload signature)
          → verify lib resolver (single lib protected payload signature) ≡ ok tt
          → base64.decode_vec payload ≡ none
          → Rejected text (caused "issue decoding claims")
      claims_unread :
          (protected : Protected) (payload signature : Text) (bytes : Bytes)
          → from_str lib text ≡ ok (single lib protected payload signature)
          → verify lib resolver (single lib protected payload signature) ≡ ok tt
          → base64.decode_vec payload ≡ some bytes
          → json.from_slice bytes ≡ none
          → Rejected text (caused "issue deserializing claims")

    verify-eq-err :
        (p : Protected) (payload s : Text) (e : Error)
        → (verify lib resolver (single lib p payload s) ≡ err e) ↔ Unverified resolver payload p s e
    unfolding verify
    verify-eq-err p payload s e = (
      λ x.
          elim (>>=-eq-err
            (verify_signature lib resolver payload (record { protected = p; signature = s })) _ x) [
              | inl f ↦ Unverified-verify_signature resolver payload p s e f
              | inr (_, _, y) ↦ absurd (ok-ne-err _ e y)
            ],
      λ u. rw (verify_signature-Unverified resolver payload p s e u) refl,
    )

    Rejected-read :
        (text : Text) (p : Protected) (payload s : Text) (e : Error)
        → from_str lib text ≡ ok (single lib p payload s)
        → decode lib json text resolver ≡ err e
        → Rejected text e
    unfolding decode
    Rejected-read text p payload s e parsed x =
        let y = rw parsed at x in
        elim (>>=-eq-err (verify lib resolver (single lib p payload s)) _ y) [
          | inl f ↦ unverified p payload s e parsed ((verify-eq-err p payload s e).0 f)
          | inr (_, v, z) ↦ elim (or_err_bind-eq-err (base64.decode_vec payload) _ _ z) [
            | inl (n, same) ↦ subst (Rejected text) same (claims_undecoded p payload s parsed v n)
            | inr (bytes, d, w) ↦ elim (or_err_bind-eq-err (json.from_slice bytes) _ _ w) [
              | inl (n, same) ↦
                  subst (Rejected text) same (claims_unread p payload s bytes parsed v d n)
              | inr (claims, r, q) ↦ absurd (ok-ne-err _ e q)
            ]
          ]
        ]

    err_passed :
        (text : Text) (f e : Error)
        → from_str lib text ≡ err f
        → decode lib json text resolver ≡ err e
        → f ≡ e
    unfolding decode
    err_passed text f e failed x = err-injective f e (rw failed at x)

    Rejected-decode :
        (text : Text) (e : Error) → decode lib json text resolver ≡ err e → Rejected text e
    Rejected-decode text e x = elim (Outcome-cases (from_str lib text)) [
      | inl (jws, parsed) ↦
          let (p, payload, s, _, same) = (from_str-eq-ok lib text jws).0 parsed in
          Rejected-read text p payload s e (rw same at parsed) x
      | inr (inl (f, failed)) ↦ malformed e (
          Malformed-from_parts (split b'.' text) e
            (unfold from_str in failed ∙ ap err (err_passed text f e failed x)))
      | inr (inr p) ↦ absurd (from_parts-ne-panic lib (split b'.' text) (unfold from_str in p))
    ]

    decode-Rejected :
        (text : Text) (e : Error) → Rejected text e → decode lib json text resolver ≡ err e
    unfolding decode
    decode-Rejected text e (malformed _ m) =
        unfold from_str in rw (from_parts-Malformed (split b'.' text) e m) refl
    decode-Rejected text e (unverified p payload s _ parsed u) =
        rw (parsed, (verify-eq-err p payload s e).1 u) refl
    decode-Rejected text e (claims_undecoded p payload s parsed v n) = rw (parsed, v, n) refl
    decode-Rejected text e (claims_unread p payload s bytes parsed v d n) =
        rw (parsed, v, d, n) refl

    -- `decode` fails exactly with the error of the first thing that is wrong: the text has not
    -- three parts; its header is not base64url, or not the JSON of a header; the header has no key
    -- ID; the signature is not base64url; the resolver fails; the key refuses the signature; the
    -- claims are not base64url; or they are not JSON claims. A header that cannot be serialized anew
    -- is an error as well.
    pub decode-eq-err :
        (text : Text) (e : Error) → (decode lib json text resolver ≡ err e) ↔ Rejected text e
    decode-eq-err text e = (Rejected-decode text e, decode-Rejected text e)
