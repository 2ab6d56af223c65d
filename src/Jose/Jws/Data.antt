-- ===== src/Jose/Jws/Data.antt =====
-- jose/jws.rs and jose/jwt.rs: the header, the signatures and the token.
use infosec.Common.{Option, none, some, List, Text}
use infosec.Jose.Jwa.{Algorithm}
use infosec.Jose.Jwk.{PublicKeyJwk}

-- The default is `key_id` of the empty text.
pub data Key : Type 0 where
  key_id : Text → Key
  jwk : PublicKeyJwk → Key

pub record Protected : Type 0 where
  pub alg : Algorithm
  pub typ : Text
  pub key : Key
  pub x5c : Option Text
  pub trust_chain : Option Text

pub record Signature : Type 0 where
  pub protected : Protected
  pub signature : Text

pub record Jws : Type 0 where
  pub payload : Text
  pub signatures : List Signature

-- jwt.rs: the header and the claims of a decoded token.
pub record Jwt (T : Type 0) : Type 0 where
  pub header : Protected
  pub claims : T

abbrev kid_of : Key → Option Text
kid_of (key_id kid) = some kid
kid_of (jwk _) = none

abbrev jwk_of : Key → Option PublicKeyJwk
jwk_of (jwk k) = some k
jwk_of (key_id _) = none

-- `Protected::kid`
unfoldable pub get_kid : Protected → Option Text
get_kid header = kid_of header.key

-- `Protected::jwk`
unfoldable pub get_jwk : Protected → Option PublicKeyJwk
get_jwk header = jwk_of header.key
