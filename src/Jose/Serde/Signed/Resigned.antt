-- ===== src/Jose/Serde/Signed/Resigned.antt =====
-- jose/jws.rs: what verification serializes anew.
use mathlib.Core.Path.{subst}
use mathlib.Core.Option.{some-injective}
use infosec.Common.{◌≡◌, refl, sym, ap, ◌∙◌, ◌↔◌, some, Bytes, Text}
use infosec.Common.{◌∙∙◌, ◌∷◌, [], Without, split}
use infosec.Foreign.Encodings.Alphabet.{encode-Without_dot}
use infosec.Jose.Jwk.{PublicKeyJwk}
use infosec.Jose.Jws.Data.{Jws, get_kid}
use infosec.Jose.Jws.Compact.{first, encode_jws, from_str}
use infosec.Jose.Jws.Compact.RoundTrip.{split-three, single, from_str-eq-ok}
use infosec.Common.{ok, ok-injective}
use infosec.Foreign.Encodings.{IsBase64}
use infosec.Foreign.Json.{Json, JsonText, IsJsonText}
use infosec.Jose.Jws.Data.{Protected}
use infosec.Jose.Jws.Verify.{Libraries, Resolver, encode_header, verify}
use infosec.Jose.Jws.Verify.Keys.{Accepts}
use infosec.Jose.Jws.Verify.Laws.{verify-eq-ok}
use infosec.Jose.Serde.Signed.{write_header, read_header, read_header-write_header, header_codec}

-- The crates, with the JSON of the protected header as its attributes say.
abbrev pub with_json : Libraries → JsonText → Libraries
with_json lib text = record {
  base64 = lib.base64;
  header_json = header_codec text;
  dalek = lib.dalek;
  k256 = lib.k256;
}

module _ (lib : Libraries) (text : JsonText) where
  -- A compact token, for the document of its header.
  abbrev pub token_of : Json → Text → Text → Text
  token_of header payload signature =
      lib.base64.encode_string (text.print header) ∙∙ payload ∙∙ signature

  -- The key that a header names accepts a signature for the document that is written of the header,
  -- and the payload.
  pub record IsCheckedAnew (resolver : Resolver) (p : Protected) (payload signature : Text)
      : Type 0 where
    pub kid : Text
    pub has_kid : get_kid p ≡ some kid
    pub sig : Bytes
    pub decoded : lib.base64.decode_vec signature ≡ some sig
    pub key : PublicKeyJwk
    pub resolved : resolver kid ≡ ok key
    pub accepted :
        Accepts
          (with_json lib text)
          key
          (lib.base64.encode_string (text.print (write_header p)) ∙∙ payload)
          sig

module _ (lib : Libraries) (text : JsonText) (base64_laws : IsBase64 lib.base64)
    (text_laws : IsJsonText text) where
  print-injective : (i j : Json) → text.print i ≡ text.print j → i ≡ j
  print-injective i j e =
      some-injective i j (sym (text_laws.parse-print i) ∙ ap text.parse e ∙ text_laws.parse-print j)

  encode-injective : (i j : Bytes) → lib.base64.encode_string i ≡ lib.base64.encode_string j → i ≡ j
  encode-injective i j e =
      some-injective i j (
        sym (base64_laws.decode-encode i)
        ∙ ap lib.base64.decode_vec e
        ∙ base64_laws.decode-encode j)

  pieces :
      (j : Json) (payload signature : Text)
      → Without b'.' payload
      → Without b'.' signature
      → split b'.' (token_of lib text j payload signature)
        ≡ lib.base64.encode_string (text.print j) ∷ payload ∷ signature ∷ []
  pieces j payload signature wp ws =
      split-three _ payload signature (encode-Without_dot base64_laws (text.print j)) wp ws

  token_of-injective :
      (i j : Json) (payload signature : Text)
      → Without b'.' payload
      → Without b'.' signature
      → token_of lib text i payload signature ≡ token_of lib text j payload signature
      → i ≡ j
  token_of-injective i j payload signature wp ws e =
      let same =
        sym (pieces i payload signature wp ws)
        ∙ ap (split b'.') e
        ∙ pieces j payload signature wp ws in
      print-injective i j (encode-injective _ _ (some-injective _ _ (ap first same)))

  encode_jws-single :
      (p : Protected) (payload signature : Text)
      → encode_jws (with_json lib text) (single (with_json lib text) p payload signature)
        ≡ ok (token_of lib text (write_header p) payload signature)
  unfolding encode_jws encode_header
  encode_jws-single p payload signature = refl

  parses :
      (received : Json) (p : Protected) (payload signature : Text)
      → read_header received ≡ some p
      → Without b'.' payload
      → Without b'.' signature
      → from_str (with_json lib text) (token_of lib text received payload signature)
        ≡ ok (single (with_json lib text) p payload signature)
  parses received p payload signature h wp ws = (from_str-eq-ok (with_json lib text) _ _).1 (
    p,
    payload,
    signature,
    record {
      header = lib.base64.encode_string (text.print received);
      parts = refl;
      header_dotless = encode-Without_dot base64_laws (text.print received);
      payload_dotless = wp;
      signature_dotless = ws;
      bytes = text.print received;
      decoded = base64_laws.decode-encode (text.print received);
      parsed = rw (text_laws.parse-print received) h;
    },
    refl,
  )

  verify-single :
      (resolver : Resolver) (p : Protected) (payload signature : Text)
      → (verify (with_json lib text) resolver (single (with_json lib text) p payload signature)
          ≡ ok tt)
        ↔ IsCheckedAnew lib text resolver p payload signature
  verify-single resolver p payload signature =
      let laws =
        verify-eq-ok (with_json lib text) resolver
          (single (with_json lib text) p payload signature) in
      (
        λ e.
            let v = (laws.0 e).0 in
            record {
              kid = v.kid;
              has_kid = v.has_kid;
              sig = v.sig;
              decoded = v.decoded;
              key = v.key;
              resolved = v.resolved;
              accepted =
                  subst
                    (λ b.
                      Accepts (with_json lib text) v.key (lib.base64.encode_string b ∙∙ payload)
                        v.sig)
                    (sym (some-injective _ _ v.serialized)) v.accepted;
            },
        λ c. laws.1 (
          record {
            kid = c.kid;
            has_kid = c.has_kid;
            header = text.print (write_header p);
            serialized = refl;
            sig = c.sig;
            decoded = c.decoded;
            key = c.key;
            resolved = c.resolved;
            accepted = c.accepted;
          },
          tt,
        ),
      )

  -- Where base64url and the text form of JSON read back what they wrote: a token with a header that
  -- is printed as `serde_json` prints it and that is read as a protected header is parsed. `encode`
  -- prints the same token of what was parsed exactly if the header is the document that the module
  -- itself writes of it. `verify` accepts what was parsed exactly if the header names a
  -- key that the resolver has, the signature is in base64url, and the key accepts it for that
  -- document and the payload.
  pub encode_jws-from_str :
      (resolver : Resolver) (received : Json) (p : Protected) (payload signature : Text)
      → read_header received ≡ some p
      → Without b'.' payload
      → Without b'.' signature
      → (jws : Jws) × (from_str (with_json lib text) (token_of lib text received payload signature)
          ≡ ok jws)
        × ((encode_jws (with_json lib text) jws ≡ ok (token_of lib text received payload signature))
            ↔ (received ≡ write_header p))
        × ((verify (with_json lib text) resolver jws ≡ ok tt)
            ↔ IsCheckedAnew lib text resolver p payload signature)
  encode_jws-from_str resolver received p payload signature h wp ws = (
    single (with_json lib text) p payload signature,
    parses received p payload signature h wp ws,
    (
      λ e.
          token_of-injective received (write_header p) payload signature wp ws
            (ok-injective _ _ (sym e ∙ encode_jws-single p payload signature)),
      λ e.
          encode_jws-single p payload signature
          ∙ ap (λ j. ok (token_of lib text j payload signature)) (sym e),
    ),
    verify-single resolver p payload signature,
  )

  -- Two headers that are written alike are one header, so that no two have the same signing input.
  pub encode_header-injective :
      (p q : Protected)
      → encode_header (with_json lib text) p ≡ encode_header (with_json lib text) q
      → p ≡ q
  unfolding encode_header
  encode_header-injective p q e =
      let same = print-injective _ _ (encode-injective _ _ (ok-injective _ _ e)) in
      some-injective p q
        (sym (read_header-write_header p) ∙ ap read_header same ∙ read_header-write_header q)
