-- ===== src/Jose/Jws/Asked.antt =====
-- jose/jws.rs: what a resolver is asked for.
use infosec.Common.{◌≡◌, refl, inl, inr, some, Text, Option-cases}
use infosec.Common.{ok, Outcome-cases}
use infosec.Foreign.Encodings.{Codec}
use infosec.Jose.Jws.Data.{Protected, Signature, Jws, get_kid}
use infosec.Jose.Jws.Verify.{Libraries, Resolver, verify_signature, verify}
use infosec.Jose.Jws.Compact.{from_str}
use infosec.Jose.Jws.Compact.RoundTrip.{IsCompact, single, from_str-eq-ok}
use infosec.Jose.Jws.Builder.{decode}

module _ (lib : Libraries) where
  verify_signature-agree :
      (asked other : Resolver) (payload : Text) (s : Signature)
      → ((kid : Text) → get_kid s.protected ≡ some kid → asked kid ≡ other kid)
      → verify_signature lib asked payload s ≡ verify_signature lib other payload s
  unfolding verify_signature
  verify_signature-agree asked other payload s same = elim (Option-cases (get_kid s.protected)) [
    | inl e ↦ rw e refl
    | inr (kid, e) ↦ rw (e, same kid e) refl
  ]

  module _ {T : Type 0} (json : Codec T) where
    decode-agree_parsed :
        (asked other : Resolver) (text : Text) (jws : Jws)
        → from_str lib text ≡ ok jws
        → verify lib asked jws ≡ verify lib other jws
        → decode lib json text asked ≡ decode lib json text other
    unfolding decode
    decode-agree_parsed asked other text jws e same = rw (e, same) refl

    verify-agree_single :
        (asked other : Resolver) (protected : Protected) (payload signature : Text)
        → ((kid : Text) → get_kid protected ≡ some kid → asked kid ≡ other kid)
        → verify lib asked (single lib protected payload signature)
          ≡ verify lib other (single lib protected payload signature)
    unfolding verify
    verify-agree_single asked other protected payload signature same =
        rw
          (verify_signature-agree asked other payload
            (record { protected = protected; signature = signature }) same)
          refl

    -- `decode` asks the resolver for the key ID of the token's header and for no other: two
    -- resolvers that agree on it give the same result, error or not.
    pub decode_agrees :
        (asked other : Resolver) (text : Text)
        → ((protected : Protected) (payload signature kid : Text)
            → IsCompact lib text protected payload signature
            → get_kid protected ≡ some kid
            → asked kid ≡ other kid)
        → decode lib json text asked ≡ decode lib json text other
    decode_agrees asked other text same = elim (Outcome-cases (from_str lib text)) [
      | inl (jws, e) ↦
          let (protected, payload, signature, c, s) = (from_str-eq-ok lib text jws).0 e in
          decode-agree_parsed asked other text jws e (
            rw s (
              verify-agree_single asked other protected payload signature
                (λ kid. same protected payload signature kid c)))
      | inr (inl (reason, e)) ↦ unfold decode in rw e refl
      | inr (inr e) ↦ unfold decode in rw e refl
    ]
