-- ===== src/Jose/Jwe/Compact/RoundTrip.antt =====
-- jose/jwe.rs and jose/jwe/decrypt.rs: `from_str` after `encode`.
use infosec.Common.{
  ◌∙∙◌, ◌≡◌, none, some, List, [], ◌∷◌, Bytes, Text, split, Without, split-append, split_undivided,
}
use infosec.Common.{ok, err, message, foreign, or_err, >>=-eq-ok, or_err-eq-ok, ok-injective}
use infosec.Foreign.Encodings.Alphabet.{encode-Without_dot}
use infosec.Jose.Jwk.{PublicKeyJwk}
use infosec.Jose.Jwe.Algorithms.{KeyAlgorithm, ContentAlgorithm}
use infosec.Jose.Jwe.Data.{default_header, KeyEncryption, one, many, Jwe}
use infosec.Jose.Jwe.Libraries.{Libraries, AreLawful}
use infosec.Jose.Jwe.Compact.{flat_header, encode, from_str}

pub split-five :
    (a b c d e : Text)
    → Without b'.' a
    → Without b'.' b
    → Without b'.' c
    → Without b'.' d
    → Without b'.' e
    → split b'.' (a ∙∙ b ∙∙ c ∙∙ d ∙∙ e) ≡ a ∷ b ∷ c ∷ d ∷ e ∷ []
split-five a b c d e wa wb wc wd we = rw (
  split-append b'.' a (b ∙∙ c ∙∙ d ∙∙ e) wa,
  split-append b'.' b (c ∙∙ d ∙∙ e) wb,
  split-append b'.' c (d ∙∙ e) wc,
  split-append b'.' d e wd,
  split_undivided b'.' e we,
)

-- The entry of a recipient of which the compact form keeps all: no key ID, and no nonce and tag of
-- its own.
abbrev pub plain_entry : KeyAlgorithm → PublicKeyJwk → Text → KeyEncryption
plain_entry alg epk encrypted_key = record {
  header = record default_header { alg = alg; epk = epk };
  encrypted_key = encrypted_key;
}

module _ (lib : Libraries) (Json : Type 0) where
  open lib use {base64, protected_json}

  -- A JWE of which the compact form keeps all: it has one recipient, with a plain entry, no
  -- unprotected header, and the algorithm of the key in that entry alone.
  abbrev pub plain :
      ContentAlgorithm → KeyAlgorithm → PublicKeyJwk → Text → Bytes → Text → Text → Text → Jwe Json
  plain enc alg epk encrypted_key aad iv ciphertext tag = record {
    protected = record { alg = none; enc = enc };
    unprotected = none;
    recipients = one (plain_entry alg epk encrypted_key);
    aad = base64.encode_string aad;
    iv = iv;
    ciphertext = ciphertext;
    tag = tag;
  }

  -- The JWE is such a one, its associated data is its protected header, and there is no dot in its
  -- texts.
  pub record IsPlain (jwe : Jwe Json) : Type 0 where
    pub enc : ContentAlgorithm
    pub alg : KeyAlgorithm
    pub epk : PublicKeyJwk
    pub encrypted_key : Text
    pub aad : Bytes
    pub iv : Text
    pub ciphertext : Text
    pub tag : Text
    pub shape : jwe ≡ plain enc alg epk encrypted_key aad iv ciphertext tag
    pub serialized : protected_json.to_vec (record { alg = none; enc = enc }) ≡ some aad
    pub key_dotless : Without b'.' encrypted_key
    pub iv_dotless : Without b'.' iv
    pub ciphertext_dotless : Without b'.' ciphertext
    pub tag_dotless : Without b'.' tag

  module _ (laws : AreLawful lib) where
    from_str-plain :
        (jwe : Jwe Json) (p : IsPlain jwe) (header : Bytes)
        → lib.flat_json.to_vec (
            flat_header
              (record { alg = none; enc = p.enc })
              (plain_entry p.alg p.epk p.encrypted_key))
          ≡ some header
        → from_str lib Json
            (base64.encode_string header ∙∙ p.encrypted_key ∙∙ p.iv ∙∙ p.ciphertext ∙∙ p.tag)
          ≡ ok jwe
    unfolding from_str
    from_str-plain jwe p header e = rw (
      split-five (base64.encode_string header) p.encrypted_key p.iv p.ciphertext p.tag
          (encode-Without_dot laws.base64 header) p.key_dotless p.iv_dotless p.ciphertext_dotless
          p.tag_dotless,
      laws.base64.decode-encode header,
      laws.flat_json.from_slice-to_vec _ header e,
      p.serialized,
      ← p.shape,
    )

    -- Where the crates keep their laws: what `encode` printed of a JWE of which the compact form
    -- keeps all is parsed as that JWE.
    pub from_str-encode :
        (jwe : Jwe Json) (s : Text)
        → IsPlain jwe
        → encode lib Json jwe ≡ ok s
        → from_str lib Json s ≡ ok jwe
    unfolding encode
    from_str-encode jwe s p h =
        let flat =
          flat_header (record { alg = none; enc = p.enc })
            (plain_entry p.alg p.epk p.encrypted_key) in
        let (header, e, h₁) =
          >>=-eq-ok (or_err (lib.flat_json.to_vec flat) foreign) _ (rw p.shape at h) in
        rw (← ok-injective _ _ h₁) (from_str-plain jwe p header (or_err-eq-ok _ _ e))

-- `encode` of a JWE with a list of recipients is an error, also where the list has one element.
pub encode_many :
    (lib : Libraries) (Json : Type 0) (jwe : Jwe Json) (list : List KeyEncryption)
    → jwe.recipients ≡ many list
    → encode lib Json jwe ≡ err (message "compact serialization requires a single recipient")
unfolding encode
encode_many lib Json jwe list e = rw e
