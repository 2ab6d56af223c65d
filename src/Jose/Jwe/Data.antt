-- ===== src/Jose/Jwe/Data.antt =====
-- jose/jwe.rs: the parts of a JWE.
use infosec.Common.{Option, none, List, Text}
use infosec.Jose.Jwk
use infosec.Jose.Jwk.{PublicKeyJwk}
use infosec.Jose.Jwe.Algorithms.{ContentAlgorithm, KeyAlgorithm, ecdh_es}

pub record Header : Type 0 where
  pub alg : KeyAlgorithm
  pub kid : Option Text
  pub epk : PublicKeyJwk
  pub iv : Option Text
  pub tag : Option Text

-- `Header::default()`
abbrev pub default_header : Header
default_header = record { alg = ecdh_es; kid = none; epk = Jwk.default; iv = none; tag = none }

pub record KeyEncryption : Type 0 where
  pub header : Header
  pub encrypted_key : Text

-- The default is `one` of an empty `KeyEncryption`.
pub data Recipients : Type 0 where
  one : KeyEncryption → Recipients
  many : List KeyEncryption → Recipients

pub record Protected : Type 0 where
  pub alg : Option KeyAlgorithm
  pub enc : ContentAlgorithm

-- The protected header of the compact form.
pub record ProtectedFlat : Type 0 where
  pub inner : Protected
  pub epk : PublicKeyJwk

-- A JWE, for the shared unprotected header over any type of JSON values.
pub record Jwe (Json : Type 0) : Type 0 where
  pub protected : Protected
  pub unprotected : Option Json
  pub recipients : Recipients
  pub aad : Text
  pub iv : Text
  pub ciphertext : Text
  pub tag : Text
