-- ===== src/Jose/Jwe/Compact/Parsed.antt =====
-- The texts that are the compact form of a JWE.
use mathlib.Core.Option
use infosec.Common.{
  ◌∙∙◌, ◌≡◌, refl, sym, ◌↔◌, none, some, List, [], ◌∷◌, Bytes, Text, split, join-split,
  split-Without, Without, All,
}
use infosec.Common.{ok, >>=-eq-ok, or_err-eq-ok, ok-injective}
use infosec.Jose.Jwe.Algorithms.{ecdh_es}
use infosec.Jose.Jwe.Data.{default_header, one, Protected, ProtectedFlat, Jwe}
use infosec.Jose.Jwe.Libraries.{Libraries}
use infosec.Jose.Jwe.Compact.{from_parts, from_str}
use infosec.Jose.Jwe.Compact.RoundTrip.{split-five}

module _ (lib : Libraries) (Json : Type 0) where
  open lib use {base64, protected_json, flat_json}

  -- The protected header that the associated data is made of: the algorithm of the content alone.
  abbrev pub shared_header : ProtectedFlat → Protected
  shared_header flat = record { alg = none; enc = flat.inner.enc }

  -- The JWE of a flattened header, the associated data and four texts.
  abbrev pub received : ProtectedFlat → Bytes → Text → Text → Text → Text → Jwe Json
  received flat aad encrypted_key iv ciphertext tag = record {
    protected = shared_header flat;
    unprotected = none;
    recipients = one (record {
      header = record default_header { alg = Option.get_or flat.inner.alg ecdh_es; epk = flat.epk };
      encrypted_key = encrypted_key;
    });
    aad = base64.encode_string aad;
    iv = iv;
    ciphertext = ciphertext;
    tag = tag;
  }

  -- The text has five parts without dots, the first of them base64url of a flattened header.
  pub record IsCompactJwe (s : Text) (jwe : Jwe Json) : Type 0 where
    pub header : Text
    pub encrypted_key : Text
    pub iv : Text
    pub ciphertext : Text
    pub tag : Text
    pub parts : s ≡ header ∙∙ encrypted_key ∙∙ iv ∙∙ ciphertext ∙∙ tag
    pub dotless : All (Without b'.') (header ∷ encrypted_key ∷ iv ∷ ciphertext ∷ tag ∷ [])
    pub bytes : Bytes
    pub decoded : base64.decode_vec header ≡ some bytes
    pub flat : ProtectedFlat
    pub parsed : flat_json.from_slice bytes ≡ some flat
    pub aad : Bytes
    pub serialized : protected_json.to_vec (shared_header flat) ≡ some aad
    pub built : jwe ≡ received flat aad encrypted_key iv ciphertext tag

  IsCompactJwe-from_parts :
      (s : Text) (ps : List Text) (jwe : Jwe Json)
      → split b'.' s ≡ ps
      → from_parts lib Json ps ≡ ok jwe
      → IsCompactJwe s jwe
  IsCompactJwe-from_parts s (h ∷ k ∷ i ∷ c ∷ t ∷ []) jwe e r =
      let (bytes, e₁, r₁) = >>=-eq-ok _ _ r in
      let (flat, e₂, r₂) = >>=-eq-ok _ _ r₁ in
      let (aad, e₃, r₃) = >>=-eq-ok _ _ r₂ in
      record {
        header = h;
        encrypted_key = k;
        iv = i;
        ciphertext = c;
        tag = t;
        parts = sym (rw e at (join-split b'.' s));
        dotless = rw e at (split-Without b'.' s);
        bytes = bytes;
        decoded = or_err-eq-ok _ _ e₁;
        flat = flat;
        parsed = or_err-eq-ok _ _ e₂;
        aad = aad;
        serialized = or_err-eq-ok _ _ e₃;
        built = sym (ok-injective _ _ r₃);
      }
  IsCompactJwe-from_parts s _ jwe e r = cc

  -- A text is parsed as a JWE exactly if it is in compact form: five parts, the first of them the
  -- flattened header, from which the JWE has the algorithm of the content, the key algorithm
  -- (ECDH-ES where there is none) and the ephemeral key. The associated data is made anew of the
  -- algorithm of the content alone.
  pub from_str-IsCompactJwe :
      (s : Text) (jwe : Jwe Json) → (from_str lib Json s ≡ ok jwe) ↔ IsCompactJwe s jwe
  unfolding from_str
  from_str-IsCompactJwe s jwe = (
    IsCompactJwe-from_parts s (split b'.' s) jwe refl,
    λ c.
        let (wh, (wk, (wi, (wc, (wt, _))))) = c.dotless in
        rw (
          c.parts,
          split-five c.header c.encrypted_key c.iv c.ciphertext c.tag wh wk wi wc wt,
          c.decoded,
          c.parsed,
          c.serialized,
          c.built,
        ),
  )
