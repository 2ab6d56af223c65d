-- ===== src/Jose/Serde/Signed.antt =====
-- jose/jws.rs: the JSON of a protected header, a signature and a JWS.
pub mod Written
pub mod Resigned
use mathlib.Core.Option
use mathlib.Core.Option.{some-injective}
use infosec.Common.{
  ℕ, ◌≡◌, refl, ap, ◌∙◌, false, Option, none, some, List, [], ◌∷◌, Bytes, Text, codes,
}
use infosec.Common.{returned}
use infosec.Foreign.Encodings.{Base64, IsBase64, Codec, IsRoundTrip}
use infosec.Foreign.Json.{
  Json, string, array, object, Elements, no_elements, element, Members, no_members, member,
  JsonText, IsJsonText,
}
use infosec.Jose.Jws.Data.{Key, key_id, jwk, Protected, Signature, Jws, Jwt}
use infosec.Jose.Jws.Base64url.{serialize, deserialize}
use infosec.Jose.Serde.{
  parsed, stored, ◌>>=◌, same, get_all, required, optional, unless_none, first_of, text_of,
  members_of, read_struct, next, ended, read_elements, read_list,
}
use infosec.Jose.Serde.Lookup.{get_all-unless_none, opt_value-listed}
use infosec.Jose.Serde.Keys.{write_algorithm, read_algorithm, write_jwk, read_jwk}
use infosec.Jose.Serde.Keys.Back.{text-Reads, algorithm-back, read_jwk-write_jwk}

-- `Key`, flattened: a member `kid` or a member `jwk`, which the header has stored.
abbrev key_member : Key → Members → Members
key_member (key_id kid) rest = member (codes "kid") (string kid) rest
key_member (jwk k) rest = member (codes "jwk") (write_jwk k) rest

unfoldable pub read_key : Members → Option Key
unfolding read_jwk
read_key =
    first_of (codes "kid") (λ j. Option.map key_id (text_of j)) (codes "jwk")
      (λ j. Option.map jwk (read_jwk stored j))

-- `Protected`
abbrev header_members : Protected → Members
header_members p = member (codes "alg") (write_algorithm p.alg) (
    member (codes "typ") (string p.typ) (
      key_member p.key (
        unless_none (codes "x5c") string p.x5c
          (unless_none (codes "trust_chain") string p.trust_chain no_members))))

unfoldable pub write_header : Protected → Json
write_header p = object (header_members p)

unfoldable pub read_header : Json → Option Protected
unfolding read_key
read_header j = do
  ms ← members_of j
  alg ← required (codes "alg") (read_algorithm parsed) ms
  typ ← required (codes "typ") text_of ms
  key ← read_key ms
  x5c ← optional (codes "x5c") text_of ms
  trust_chain ← optional (codes "trust_chain") text_of ms
  some (record { alg = alg; typ = typ; key = key; x5c = x5c; trust_chain = trust_chain })

get_all-key_member :
    (name : Text) (key : Key) (rest : Members)
    → same (codes "kid") name ≡ false
    → same (codes "jwk") name ≡ false
    → get_all name (key_member key rest) ≡ get_all name rest
get_all-key_member name (key_id kid) rest p q = rw p refl
get_all-key_member name (jwk k) rest p q = rw q refl

read_key-key_member : (key : Key) (rest : Members) → read_key (key_member key rest) ≡ some key
unfolding read_key
read_key-key_member (key_id kid) rest = refl
read_key-key_member (jwk k) rest = rw (read_jwk-write_jwk stored k) refl

pub read_header-write_header : (p : Protected) → read_header (write_header p) ≡ some p
unfolding read_header write_header
read_header-write_header p =
    let ms = header_members p in
    let alg : required (codes "alg") (read_algorithm parsed) ms ≡ some p.alg =
      simp (get_all-key_member (codes "alg") p.key _ refl refl, get_all-unless_none)
        (algorithm-back parsed p.alg) in
    let typ : required (codes "typ") text_of ms ≡ some p.typ =
      simp (get_all-key_member (codes "typ") p.key _ refl refl, get_all-unless_none) refl in
    let key : read_key ms ≡ some p.key = read_key-key_member p.key _ in
    let x5c : optional (codes "x5c") text_of ms ≡ some p.x5c =
      simp (get_all-key_member (codes "x5c") p.key _ refl refl, get_all-unless_none)
        (opt_value-listed string text_of text-Reads p.x5c) in
    let trust_chain : optional (codes "trust_chain") text_of ms ≡ some p.trust_chain =
      simp (get_all-key_member (codes "trust_chain") p.key _ refl refl, get_all-unless_none)
        (opt_value-listed string text_of text-Reads p.trust_chain) in
    rw (alg, typ, key, x5c, trust_chain) refl

-- `Jwt`, which is only written.
unfoldable pub write_jwt : {T : Type 0} → (T → Json) → Jwt T → Json
unfolding write_header
write_jwt write jwt = object (
    member (codes "header") (write_header jwt.header)
      (member (codes "claims") (write jwt.claims) no_members))

-- `serde_json` at the protected header.
abbrev pub header_codec : JsonText → Codec Protected
header_codec text = record {
  to_vec = λ p. some (text.print (write_header p));
  from_slice = λ bytes. text.parse bytes >>= read_header;
}

pub header_codec-IsRoundTrip : (text : JsonText) → IsJsonText text → IsRoundTrip (header_codec text)
header_codec-IsRoundTrip text laws = record {
  from_slice-to_vec = λ p bytes h.
      rw (← some-injective _ _ h, laws.parse-print (write_header p)) (read_header-write_header p);
}

module _ (base64 : Base64) (text : JsonText) where
  -- The header in a `Signature`, from base64url.
  abbrev pub read_protected : Json → Option Protected
  read_protected j = returned (deserialize base64 (header_codec text) (text_of j))

  -- `Signature`
  abbrev signature_of_members : Members → Option Signature
  signature_of_members ms = do
    protected ← required (codes "protected") read_protected ms
    signature ← required (codes "signature") text_of ms
    some (record { protected = protected; signature = signature })

  abbrev signature_of_elements : Elements → Option Signature
  signature_of_elements list = do
    (protected, list) ← next read_protected list
    (signature, list) ← next text_of list
    ended (record { protected = protected; signature = signature }) list

  unfoldable pub read_signature : Json → Option Signature
  unfolding deserialize
  read_signature = read_struct signature_of_members signature_of_elements

  -- `Jws`
  abbrev jws_of_members : Members → Option Jws
  jws_of_members ms = do
    payload ← required (codes "payload") text_of ms
    signatures ← required (codes "signatures") (read_list read_signature) ms
    some (record { payload = payload; signatures = signatures })

  abbrev jws_of_elements : Elements → Option Jws
  jws_of_elements list = do
    (payload, list) ← next text_of list
    (signatures, list) ← next (read_list read_signature) list
    ended (record { payload = payload; signatures = signatures }) list

  unfoldable pub read_jws : Json → Option Jws
  unfolding read_signature
  read_jws = read_struct jws_of_members jws_of_elements
