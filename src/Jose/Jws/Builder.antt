-- ===== src/Jose/Jws/Builder.antt =====
-- jose/jws.rs: the builder, and `encode` and `decode` of a token.
use infosec.Common.{◌∙∙◌, none, List, [], ◌∷◌, Text, codes, as_bytes}
use infosec.Common.{Outcome, ok, message, caused, foreign, or_err, ◌>>=◌, ◌>>◌}
use infosec.Foreign.Encodings.{Codec}
use infosec.Traits.{Signer}
use infosec.Jose.Jws.Data.{key_id, Protected, Jws, Jwt}
use infosec.Jose.Jws.Verify.{Libraries, Resolver, encode_header, verify}
use infosec.Jose.Jws.Compact.{first, from_str}

-- The typestates of the builder.
pub data NoPayload : Type 0 where
  no_payload : NoPayload

pub record Payload (T : Type 0) : Type 0 where
  pub value : T

pub data NoSigners : Type 0 where
  no_signers : NoSigners

pub record Signers : Type 0 where
  pub list : List Signer

pub record JwsBuilder (P S : Type 0) : Type 0 where
  pub typ : Text
  pub payload : P
  pub signers : S

-- `JwsBuilder::new`
unfoldable pub new : JwsBuilder NoPayload NoSigners
new = record { typ = codes "jwt"; payload = no_payload; signers = no_signers }

-- `JwsBuilder::payload`
unfoldable pub set_payload :
    {T : Type 0} → JwsBuilder NoPayload NoSigners → T → JwsBuilder (Payload T) NoSigners
set_payload b value = record {
  typ = b.typ;
  payload = record { value = value };
  signers = no_signers;
}

module _ {P S : Type 0} where
  -- `JwsBuilder::jwt_type`
  unfoldable pub set_jwt_type : JwsBuilder P S → Text → JwsBuilder P S
  set_jwt_type b typ = record b { typ = typ }

  -- `JwsBuilder::add_signer`: the signer replaces what was there.
  unfoldable pub add_signer : JwsBuilder P S → Signer → JwsBuilder P Signers
  add_signer b signer = record {
    typ = b.typ;
    payload = b.payload;
    signers = record { list = signer ∷ [] };
  }

-- The header that `build` makes for a key.
abbrev pub header_of : Signer → Text → Text → Protected
header_of signer typ kid = record {
  alg = signer.algorithm;
  typ = typ;
  key = key_id kid;
  x5c = none;
  trust_chain = none;
}

module _ (lib : Libraries) {T : Type 0} (json : Codec T) where
  open lib use {base64}

  -- `JwsBuilder::build`
  unfoldable pub build : JwsBuilder (Payload T) Signers → Outcome Jws
  unfolding encode_header
  build b = do
    signer ← or_err (first b.signers.list) (message "no signers found")
    verification_method ← signer.verification_method
    let protected = header_of signer b.typ verification_method
    header ← encode_header lib protected
    bytes ← or_err (json.to_vec b.payload.value) foreign
    let payload = base64.encode_string bytes
    sig ← signer.try_sign (as_bytes (header ∙∙ payload))
    ok (record {
      payload = payload;
      signatures = record { protected = protected; signature = base64.encode_string sig } ∷ [];
    })

  -- `encode`
  unfoldable pub encode : T → Signer → Outcome Text
  unfolding build encode_header new set_payload add_signer
  encode payload signer = do
    jws ← build (add_signer (set_payload new payload) signer)
    signature ← or_err (first jws.signatures) (message "no signature found")
    header ← encode_header lib signature.protected
    ok (header ∙∙ jws.payload ∙∙ signature.signature)

  -- `decode`
  unfoldable pub decode : Text → Resolver → Outcome (Jwt T)
  unfolding from_str verify
  decode compact_jws resolver = do
    jws ← from_str lib compact_jws
    verify lib resolver jws
    bytes ← or_err (base64.decode_vec jws.payload) (caused "issue decoding claims")
    claims ← or_err (json.from_slice bytes) (caused "issue deserializing claims")
    signature ← or_err (first jws.signatures) (message "no signature found")
    ok (record { header = signature.protected; claims = claims })
