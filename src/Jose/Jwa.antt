-- ===== src/Jose/Jwa.antt =====
-- jose/jwa.rs: the signing algorithms.
use infosec.Common.{Text, codes}

-- The default is `eddsa`.
pub data Algorithm : Type 0 where
  es256k eddsa : Algorithm

-- `Display for Algorithm`: the name that `Debug` prints.
unfoldable pub to_string : Algorithm → Text
to_string es256k = codes "ES256K"
to_string eddsa = codes "EdDSA"
