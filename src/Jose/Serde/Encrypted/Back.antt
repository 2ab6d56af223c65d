-- ===== src/Jose/Serde/Encrypted/Back.antt =====
-- jose/jwe.rs: the JSON that is written of a JWE, and its reading.
use mathlib.Core.Option.{some-injective}
use infosec.Common.{◌≡◌, refl, false, Option, none, some, [], ◌++◌, Text, codes}
use infosec.Foreign.Encodings.{IsRoundTrip}
use infosec.Foreign.Json.{
  Json, null, boolean, number, string, array, object, Members, no_members, member, JsonText,
  IsJsonText,
}
use infosec.Jose.Jwe.Data.{
  Header, KeyEncryption, Recipients, one, many, Protected, ProtectedFlat, Jwe,
}
use infosec.Jose.Serde.{
  Origin, parsed, stored, same, get_all, required, optional, opt_value, unless_none, text_of,
}
use infosec.Jose.Serde.Lookup.{
  get_all-unless_none, opt_value-listed, opt_value-nullable, read_elements-write_list, listed,
}
use infosec.Jose.Serde.Keys.{write_alg, read_alg, read_enc, write_jwk, read_jwk}
use infosec.Jose.Serde.Keys.Back.{text-Reads, alg-Reads, enc-back, read_jwk-write_jwk}
use infosec.Jose.Serde.Encrypted.{
  any, protected_members, write_protected, read_inner, read_protected, write_flat, read_flat,
  header_members, write_header, read_header, write_entry, read_entry, recipients_member,
  read_recipients, jwe_members, write_jwe, read_jwe, protected_codec, flat_codec,
}

read_inner-protected_members :
    (o : Origin) (p : Protected) (rest : Members)
    → get_all (codes "alg") rest ≡ []
    → get_all (codes "enc") rest ≡ []
    → read_inner o (protected_members p rest) ≡ some p
unfolding read_inner
read_inner-protected_members o p rest a e =
    let ms = protected_members p rest in
    let alg : optional (codes "alg") (read_alg o) ms ≡ some p.alg =
      simp (get_all-unless_none, a) (opt_value-listed write_alg (read_alg o) (alg-Reads o) p.alg) in
    let enc : required (codes "enc") (read_enc o) ms ≡ some p.enc =
      simp (get_all-unless_none, e) (enc-back o p.enc) in
    rw (alg, enc) refl

read_protected-write_protected :
    (o : Origin) (p : Protected) → read_protected o (write_protected p) ≡ some p
unfolding read_protected write_protected
read_protected-write_protected o p = read_inner-protected_members o p no_members refl refl

flat_epk :
    (p : ProtectedFlat)
    → required
        (codes "epk")
        (read_jwk parsed)
        (protected_members p.inner (member (codes "epk") (write_jwk p.epk) no_members))
      ≡ some p.epk
flat_epk p = simp get_all-unless_none (read_jwk-write_jwk parsed p.epk)

read_flat-write_flat : (p : ProtectedFlat) → read_flat (write_flat p) ≡ some p
unfolding read_flat write_flat
read_flat-write_flat p =
    let rest = member (codes "epk") (write_jwk p.epk) no_members in
    rw (flat_epk p, read_inner-protected_members stored p.inner rest refl refl) refl

header_epk :
    (o : Origin) (h : Header) → required (codes "epk") (read_jwk o) (header_members h) ≡ some h.epk
header_epk o h = simp get_all-unless_none (read_jwk-write_jwk o h.epk)

read_header-write_header : (o : Origin) (h : Header) → read_header o (write_header h) ≡ some h
unfolding read_header write_header
read_header-write_header o h =
    let ms = header_members h in
    let alg : required (codes "alg") (read_alg o) ms ≡ some h.alg =
      simp get_all-unless_none ((alg-Reads o).back h.alg) in
    let kid : optional (codes "kid") text_of ms ≡ some h.kid =
      simp get_all-unless_none (opt_value-nullable string text_of text-Reads h.kid) in
    let iv : optional (codes "iv") text_of ms ≡ some h.iv =
      simp get_all-unless_none (opt_value-listed string text_of text-Reads h.iv) in
    let tag : optional (codes "tag") text_of ms ≡ some h.tag =
      simp get_all-unless_none (opt_value-listed string text_of text-Reads h.tag) in
    rw (alg, kid, header_epk o h, iv, tag) refl

read_entry-write_entry : (o : Origin) (e : KeyEncryption) → read_entry o (write_entry e) ≡ some e
unfolding read_entry write_entry
read_entry-write_entry o e = rw (read_header-write_header o e.header) refl

read_recipients-recipients_member :
    (r : Recipients) (rest : Members) → read_recipients (recipients_member r rest) ≡ some r
unfolding read_recipients
read_recipients-recipients_member (one e) rest = rw (read_entry-write_entry stored e) refl
read_recipients-recipients_member (many list) rest =
    rw
      (read_elements-write_list write_entry (read_entry stored) (read_entry-write_entry stored)
        list)
      refl

get_all-recipients_member :
    (name : Text) (r : Recipients) (rest : Members)
    → same (codes "One") name ≡ false
    → same (codes "Many") name ≡ false
    → get_all name (recipients_member r rest) ≡ get_all name rest
get_all-recipients_member name (one e) rest p q = rw p refl
get_all-recipients_member name (many list) rest p q = rw q refl

-- What is read of an optional value that was written: `null` is read as none.
abbrev pub kept : Option Json → Option Json
kept (some null) = none
kept o = o

unprotected-kept : (o : Option Json) → opt_value any (listed (λ j. j) o ++ []) ≡ some (kept o)
unprotected-kept none = refl
unprotected-kept (some null) = refl
unprotected-kept (some (boolean b)) = refl
unprotected-kept (some (number t)) = refl
unprotected-kept (some (string t)) = refl
unprotected-kept (some (array list)) = refl
unprotected-kept (some (object ms)) = refl

jwe_protected :
    (jwe : Jwe Json)
    → required (codes "protected") (read_protected parsed) (jwe_members jwe) ≡ some jwe.protected
jwe_protected jwe =
    simp
      (
        get_all-unless_none,
        get_all-recipients_member (codes "protected") jwe.recipients _ refl refl,
      )
      (read_protected-write_protected parsed jwe.protected)

jwe_unprotected :
    (jwe : Jwe Json)
    → optional (codes "unprotected") any (jwe_members jwe) ≡ some (kept jwe.unprotected)
jwe_unprotected jwe =
    simp
      (
        get_all-unless_none,
        get_all-recipients_member (codes "unprotected") jwe.recipients _ refl refl,
      )
      (unprotected-kept jwe.unprotected)

read_recipients_after :
    (o : Option Json) (r : Recipients) (rest : Members)
    → read_recipients (unless_none (codes "unprotected") (λ j. j) o (recipients_member r rest))
      ≡ some r
unfolding read_recipients
read_recipients_after none r rest = read_recipients-recipients_member r rest
read_recipients_after (some j) r rest = read_recipients-recipients_member r rest

jwe_recipients : (jwe : Jwe Json) → read_recipients (jwe_members jwe) ≡ some jwe.recipients
unfolding read_recipients
jwe_recipients jwe = read_recipients_after jwe.unprotected jwe.recipients _

module _ (name : Text) (jwe : Jwe Json) where
  -- The members behind the recipients.
  abbrev content_members : Members
  content_members = member (codes "aad") (string jwe.aad) (
      member (codes "iv") (string jwe.iv) (
        member (codes "ciphertext") (string jwe.ciphertext)
          (member (codes "tag") (string jwe.tag) no_members)))

  get_all-jwe_members :
      same (codes "protected") name ≡ false
      → same (codes "unprotected") name ≡ false
      → same (codes "One") name ≡ false
      → same (codes "Many") name ≡ false
      → get_all name (jwe_members jwe) ≡ get_all name content_members
  get_all-jwe_members p u o m =
      rw
        (
          p,
          get_all-unless_none (λ j. j) name (codes "unprotected") jwe.unprotected
              (recipients_member jwe.recipients content_members),
          u,
        )
        (get_all-recipients_member name jwe.recipients content_members o m)

jwe_text :
    (name : Text) (jwe : Jwe Json) (t : Text)
    → get_all name (jwe_members jwe) ≡ get_all name (content_members name jwe)
    → required name text_of (content_members name jwe) ≡ some t
    → required name text_of (jwe_members jwe) ≡ some t
jwe_text name jwe t e h = rw e h

-- A JWE that is written as JSON is read back from it, but that a shared unprotected header which is
-- `null` is lost.
pub read_jwe-write_jwe :
    (jwe : Jwe Json)
    → read_jwe (write_jwe jwe) ≡ some (record jwe { unprotected = kept jwe.unprotected })
unfolding read_jwe write_jwe
read_jwe-write_jwe jwe =
    rw
      (
        jwe_protected jwe,
        jwe_unprotected jwe,
        jwe_recipients jwe,
        jwe_text (codes "aad") jwe jwe.aad
            (get_all-jwe_members (codes "aad") jwe refl refl refl refl) refl,
        jwe_text (codes "iv") jwe jwe.iv (get_all-jwe_members (codes "iv") jwe refl refl refl refl)
            refl,
        jwe_text (codes "ciphertext") jwe jwe.ciphertext
            (get_all-jwe_members (codes "ciphertext") jwe refl refl refl refl) refl,
        jwe_text (codes "tag") jwe jwe.tag
            (get_all-jwe_members (codes "tag") jwe refl refl refl refl) refl,
      )
      refl

-- The JSON of no JWE has a member `header` or `encrypted_key`, as the flattened syntax has for one
-- recipient, nor a member `recipients`, as the general syntax has for several.
pub write_jwe-names :
    (jwe : Jwe Json)
    → (get_all (codes "header") (jwe_members jwe) ≡ [])
      × (get_all (codes "encrypted_key") (jwe_members jwe) ≡ [])
      × (get_all (codes "recipients") (jwe_members jwe) ≡ [])
write_jwe-names jwe = (
  get_all-jwe_members (codes "header") jwe refl refl refl refl,
  get_all-jwe_members (codes "encrypted_key") jwe refl refl refl refl,
  get_all-jwe_members (codes "recipients") jwe refl refl refl refl,
)

pub protected_codec-IsRoundTrip :
    (text : JsonText) → IsJsonText text → IsRoundTrip (protected_codec text)
protected_codec-IsRoundTrip text laws = record {
  from_slice-to_vec = λ p bytes h.
      rw (← some-injective _ _ h, laws.parse-print (write_protected p))
        (read_protected-write_protected parsed p);
}

pub flat_codec-IsRoundTrip : (text : JsonText) → IsJsonText text → IsRoundTrip (flat_codec text)
flat_codec-IsRoundTrip text laws = record {
  from_slice-to_vec = λ p bytes h.
      rw (← some-injective _ _ h, laws.parse-print (write_flat p)) (read_flat-write_flat p);
}
