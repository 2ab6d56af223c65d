-- ===== src/Jose/Serde/Encrypted.antt =====
-- jose/jwe.rs: the JSON of a JWE and its parts.
pub mod Back
use mathlib.Core.Option
use infosec.Common.{Option, none, some, List, Text, codes}
use infosec.Foreign.Encodings.{Codec}
use infosec.Foreign.Json.{
  Json, string, array, object, Elements, Members, no_members, member, JsonText,
}
use infosec.Jose.Jwe.Data.{
  Header, KeyEncryption, Recipients, one, many, Protected, ProtectedFlat, Jwe,
}
use infosec.Jose.Serde.{
  Origin, parsed, stored, ◌>>=◌, required, optional, nullable, unless_none, first_of, text_of,
  members_of, read_struct, next, read_option, ended, write_list, read_list,
}
use infosec.Jose.Serde.Keys.{write_alg, read_alg, write_enc, read_enc, write_jwk, read_jwk}

-- `Protected`, before the members that may follow.
abbrev pub protected_members : Protected → Members → Members
protected_members p rest =
    unless_none (codes "alg") write_alg p.alg (member (codes "enc") (write_enc p.enc) rest)

unfoldable pub write_protected : Protected → Json
write_protected p = object (protected_members p no_members)

unfoldable pub read_inner : Origin → Members → Option Protected
read_inner o ms = do
  alg ← optional (codes "alg") (read_alg o) ms
  enc ← required (codes "enc") (read_enc o) ms
  some (record { alg = alg; enc = enc })

abbrev protected_of_elements : Origin → Elements → Option Protected
protected_of_elements o list = do
  (alg, list) ← next (read_option (read_alg o)) list
  (enc, list) ← next (read_enc o) list
  ended (record { alg = alg; enc = enc }) list

unfoldable pub read_protected : Origin → Json → Option Protected
unfolding read_inner
read_protected o = read_struct (read_inner o) (protected_of_elements o)

-- `ProtectedFlat`: the members of `Protected` are its own, and are stored.
unfoldable pub write_flat : ProtectedFlat → Json
unfolding write_jwk
write_flat p =
    object (protected_members p.inner (member (codes "epk") (write_jwk p.epk) no_members))

unfoldable pub read_flat : Json → Option ProtectedFlat
unfolding read_inner read_jwk
read_flat j = do
  ms ← members_of j
  epk ← required (codes "epk") (read_jwk parsed) ms
  inner ← read_inner stored ms
  some (record { inner = inner; epk = epk })

-- `Header`: the key ID is written where there is none.
abbrev pub header_members : Header → Members
header_members h = member (codes "alg") (write_alg h.alg) (
    member (codes "kid") (nullable string h.kid) (
      member (codes "epk") (write_jwk h.epk)
        (unless_none (codes "iv") string h.iv (unless_none (codes "tag") string h.tag no_members))))

unfoldable pub write_header : Header → Json
write_header h = object (header_members h)

abbrev header_of_members : Origin → Members → Option Header
unfolding read_jwk read_alg
header_of_members o ms = do
  alg ← required (codes "alg") (read_alg o) ms
  kid ← optional (codes "kid") text_of ms
  epk ← required (codes "epk") (read_jwk o) ms
  iv ← optional (codes "iv") text_of ms
  tag ← optional (codes "tag") text_of ms
  some (record { alg = alg; kid = kid; epk = epk; iv = iv; tag = tag })

abbrev header_of_elements : Origin → Elements → Option Header
unfolding read_jwk read_alg
header_of_elements o list = do
  (alg, list) ← next (read_alg o) list
  (kid, list) ← next (read_option text_of) list
  (epk, list) ← next (read_jwk o) list
  (iv, list) ← next (read_option text_of) list
  (tag, list) ← next (read_option text_of) list
  ended (record { alg = alg; kid = kid; epk = epk; iv = iv; tag = tag }) list

unfoldable pub read_header : Origin → Json → Option Header
unfolding read_jwk read_alg
read_header o = read_struct (header_of_members o) (header_of_elements o)

-- `KeyEncryption`
unfoldable pub write_entry : KeyEncryption → Json
unfolding write_header
write_entry e = object (
    member (codes "header") (write_header e.header)
      (member (codes "encrypted_key") (string e.encrypted_key) no_members))

abbrev entry_of_members : Origin → Members → Option KeyEncryption
entry_of_members o ms = do
  header ← required (codes "header") (read_header o) ms
  encrypted_key ← required (codes "encrypted_key") text_of ms
  some (record { header = header; encrypted_key = encrypted_key })

abbrev entry_of_elements : Origin → Elements → Option KeyEncryption
entry_of_elements o list = do
  (header, list) ← next (read_header o) list
  (encrypted_key, list) ← next text_of list
  ended (record { header = header; encrypted_key = encrypted_key }) list

unfoldable pub read_entry : Origin → Json → Option KeyEncryption
unfolding read_header
read_entry o = read_struct (entry_of_members o) (entry_of_elements o)

-- `Recipients`, flattened: the member has the name of the variant, and is stored.
abbrev pub recipients_member : Recipients → Members → Members
recipients_member (one e) rest = member (codes "One") (write_entry e) rest
recipients_member (many list) rest =
    member (codes "Many")
      (object (member (codes "recipients") (array (write_list write_entry list)) no_members)) rest

abbrev many_of_elements : Elements → Option (List KeyEncryption)
many_of_elements list = do
  (recipients, list) ← next (read_list (read_entry stored)) list
  ended recipients list

abbrev pub read_many : Json → Option (List KeyEncryption)
read_many =
    read_struct (required (codes "recipients") (read_list (read_entry stored))) many_of_elements

unfoldable pub read_recipients : Members → Option Recipients
unfolding read_entry
read_recipients =
    first_of (codes "One") (λ j. Option.map one (read_entry stored j)) (codes "Many")
      (λ j. Option.map many (read_many j))

abbrev any : Json → Option Json
any j = some j

-- `Jwe`
abbrev pub jwe_members : Jwe Json → Members
jwe_members jwe = member (codes "protected") (write_protected jwe.protected) (
    unless_none (codes "unprotected") (λ j. j) jwe.unprotected
      (recipients_member jwe.recipients (
        member (codes "aad") (string jwe.aad) (
          member (codes "iv") (string jwe.iv) (
            member (codes "ciphertext") (string jwe.ciphertext)
              (member (codes "tag") (string jwe.tag) no_members))))))

unfoldable pub write_jwe : Jwe Json → Json
unfolding write_protected write_entry
write_jwe jwe = object (jwe_members jwe)

unfoldable pub read_jwe : Json → Option (Jwe Json)
unfolding read_protected read_recipients
read_jwe j = do
  ms ← members_of j
  protected ← required (codes "protected") (read_protected parsed) ms
  unprotected ← optional (codes "unprotected") any ms
  recipients ← read_recipients ms
  aad ← required (codes "aad") text_of ms
  iv ← required (codes "iv") text_of ms
  ciphertext ← required (codes "ciphertext") text_of ms
  tag ← required (codes "tag") text_of ms
  some (record {
    protected = protected;
    unprotected = unprotected;
    recipients = recipients;
    aad = aad;
    iv = iv;
    ciphertext = ciphertext;
    tag = tag;
  })

-- `serde_json` at the two headers.
abbrev pub protected_codec : JsonText → Codec Protected
protected_codec text = record {
  to_vec = λ p. some (text.print (write_protected p));
  from_slice = λ bytes. text.parse bytes >>= read_protected parsed;
}

abbrev pub flat_codec : JsonText → Codec ProtectedFlat
flat_codec text = record {
  to_vec = λ p. some (text.print (write_flat p));
  from_slice = λ bytes. text.parse bytes >>= read_flat;
}

-- `serde_json` at a JWE.
abbrev pub jwe_codec : JsonText → Codec (Jwe Json)
jwe_codec text = record {
  to_vec = λ jwe. some (text.print (write_jwe jwe));
  from_slice = λ bytes. text.parse bytes >>= read_jwe;
}
