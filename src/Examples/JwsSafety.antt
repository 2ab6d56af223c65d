-- ===== src/Examples/JwsSafety.antt =====
-- jose/jws.rs on small tokens: panics, orders and resolvers.
use mathlib.Core.List.{Permᴰ}
use mathlib.Core.Option
use mathlib.Core.Option.{some-injective}
use infosec.Common.{
  ◌≡◌, ◌≢◌, panic, refl, ◌↔◌, some, List, [], ◌∷◌, Text, Bytes-discrete, ◌∙∙◌, codes, as_bytes,
  Bytes, Text-discrete, holds, if◌then◌else◌, ok-injective, sym, ap, ◌∙◌, ok, err, message, Error,
}
use infosec.Traits.{Signer}
use infosec.Jose.Jws.Data.{Protected, Signature, Jws, get_kid}
use infosec.Jose.Jws.Verify.{Libraries, Resolver, verify}
use infosec.Jose.Jws.Compact.{first, encode_jws, from_str, did}
use infosec.Jose.Jws.Compact.RoundTrip.{IsCompact, single, from_str-eq-ok}
use infosec.Jose.Jws.Builder.{
  new, set_payload, add_signer, build, encode, decode, JwsBuilder, Payload, Signers,
}
use infosec.Jose.Jws.Safety.{decode-ne-panic}
use infosec.Jose.Jws.Errors.{Rejected, decode-eq-err}
use infosec.Jose.Jws.Order.{verify-perm}
use infosec.Jose.Jws.Calls.{Call, run, typed, holding, run_holds}
use infosec.Jose.Jws.Unsigned.{Unsigned, SignerPanics, encode_fails}
use infosec.Jose.Jws.Made.{Made, Made-kept}
use infosec.Jose.Jws.Asked.{decode_agrees}
use infosec.Jose.Serde.Keys.{write_algorithm}
use infosec.Jose.Serde.Signed.{header_codec, write_header}
use infosec.Examples.JsonText.{prefix_text, put}
use infosec.Examples.Encodings.{raw, hex_base64}
use infosec.Examples.JwsTokens.{
  kid, lib, lib_with, jwk, resolver, signer, payload, compact, jws, header, Protected-discrete,
}

abbrev second : Signer
second = record signer { verification_method = err (message "no key") }

-- A text with two dots and no header.
decode-ne-panic_example : decode lib raw (codes "..") resolver ≢ panic
decode-ne-panic_example = decode-ne-panic lib raw (codes "..") resolver (λ k e. cc)

-- Two signatures under different headers.
abbrev both : Libraries
both = lib_with (header_codec prefix_text)

abbrev signed_by : Protected → Signature
signed_by p = record {
  protected = p;
  signature =
      hex_base64.encode_string
        (as_bytes (hex_base64.encode_string (prefix_text.print (write_header p)) ∙∙ jws.payload));
}

abbrev other_header : Protected
other_header = record header { typ = [] }

abbrev with_signatures : List Signature → Jws
with_signatures ss = record { payload = jws.payload; signatures = ss }

both_verified :
    verify both resolver (with_signatures (signed_by header ∷ signed_by other_header ∷ [])) ≡ ok tt
unfolding verify as_bytes Bytes-discrete put write_header write_algorithm
both_verified = refl

verify-perm_example :
    verify both resolver (with_signatures (signed_by other_header ∷ signed_by header ∷ [])) ≡ ok tt
verify-perm_example =
    verify-perm both resolver (with_signatures (signed_by header ∷ signed_by other_header ∷ []))
      (with_signatures (signed_by other_header ∷ signed_by header ∷ [])) refl
      ∣ Permᴰ.swap refl refl ∣₁ both_verified

abbrev builder : JwsBuilder (Payload Bytes) Signers
builder = add_signer (set_payload new payload) signer

built : build lib raw builder ≡ ok jws
unfolding build Protected-discrete new set_payload add_signer
built = refl

Made-kept_example :
    ((s : Signature) × (jws.signatures ≡ s ∷ []))
    × (did jws ≢ panic)
    × (encode_jws lib jws ≢ err (message "no signature found"))
Made-kept_example = Made-kept lib jws (Made.built raw builder jws built)

header_same : (p : Protected) (t s : Text) → single lib p t s ≡ jws → p ≡ header
header_same p t s h =
    some-injective p header (ap (λ j. Option.map (λ q. q.protected) (first j.signatures)) h)

-- A resolver that has only the key that is named.
abbrev only_named : Resolver
only_named k = if holds (Text-discrete k kid) then ok jwk else err (message "no such key")

compact_parsed : from_str lib compact ≡ ok jws
unfolding from_str as_bytes Protected-discrete Bytes-discrete
compact_parsed = refl

named_agrees :
    (protected : Protected) (p s k : Text)
    → IsCompact lib compact protected p s
    → get_kid protected ≡ some k
    → resolver k ≡ only_named k
unfolding get_kid Text-discrete
named_agrees protected p s k c h =
    let e = (from_str-eq-ok lib compact (single lib protected p s)).1 (protected, p, s, c, refl) in
    let same = ok-injective _ _ (sym e ∙ compact_parsed) in
    let q = header_same protected p s same in
    let kid_same : k ≡ kid = some-injective k kid (sym h ∙ ap get_kid q) in rw kid_same refl

decode_agrees_example : decode lib raw compact resolver ≡ decode lib raw compact only_named
decode_agrees_example = decode_agrees lib raw resolver only_named compact named_agrees

decode-eq-err_example :
    (decode lib raw (codes "a.b") resolver ≡ err (message "invalid Compact JWS format"))
    ↔ Rejected lib raw resolver (codes "a.b") (message "invalid Compact JWS format")
decode-eq-err_example =
    decode-eq-err lib raw resolver (codes "a.b") (message "invalid Compact JWS format")

-- Two signers, of which the second stays.
run_holds_example :
    run
      (Call.jwt_type (codes "at") ∷ Call.add_signer second ∷ [])
      (add_signer (typed [] (set_payload (typed (codes "vc" ∷ []) new) payload)) signer)
    ≡ holding (codes "at") payload second
run_holds_example =
    run_holds payload (codes "vc" ∷ []) [] signer
      (Call.jwt_type (codes "at") ∷ Call.add_signer second ∷ [])

-- A signer that has no key ID.
encode_fails_example :
    ((e : Error) → (encode lib raw payload second ≡ err e) ↔ Unsigned lib raw payload second e)
    × ((encode lib raw payload second ≡ panic) ↔ SignerPanics lib raw payload second)
encode_fails_example = encode_fails lib raw payload second
