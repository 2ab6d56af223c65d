-- ===== src/Jose/Serde/Keys.antt =====
-- lib.rs, jose/jwa.rs, jose/jwk.rs, jose/jwe.rs: the JSON of keys and algorithms.
pub mod Back
use infosec.Common.{◌≡◌, refl, false, Option, some, [], ◌∷◌, codes}
use infosec.Types.{KeyType, okp, ec, oct, Curve, ed25519, x25519, es256k}
use infosec.Foreign.Json.{
  Json, string, array, object, Elements, Members, no_members, member, is_null,
}
use infosec.Jose.Jwa.{Algorithm, es256k as es256k_algorithm, eddsa}
use infosec.Jose.Jwk.{KeyUse, signature, encryption, PublicKeyJwk, Jwks}
use infosec.Jose.Jwe.Algorithms.{
  ContentAlgorithm, a256gcm, xchacha20_poly1305, KeyAlgorithm, ecdh_es, ecdh_es_a256kw,
  ecies_es256k, Zip, deflate,
}
use infosec.Jose.Serde.Lookup.{
  Reads, get_all-unless_none, opt_value-listed, read_elements-write_list,
}
use infosec.Jose.Serde.{
  Origin, ◌>>=◌, required, optional, unless_none, read_variant, text_of, read_struct, next,
  read_option, ended, write_list, read_list,
}

-- `KeyType`
unfoldable pub write_kty : KeyType → Json
write_kty okp = string (codes "OKP")
write_kty ec = string (codes "EC")
write_kty oct = string (codes "oct")

unfoldable pub read_kty : Origin → Json → Option KeyType
read_kty o j = read_variant o ((codes "OKP", okp) ∷ (codes "EC", ec) ∷ (codes "oct", oct) ∷ []) j

-- `Curve`: `secp256k1` is read as ES256K, and is not written.
unfoldable pub write_crv : Curve → Json
write_crv ed25519 = string (codes "Ed25519")
write_crv x25519 = string (codes "X25519")
write_crv es256k = string (codes "ES256K")

unfoldable pub read_crv : Origin → Json → Option Curve
read_crv o j =
    read_variant o
      ((codes "Ed25519", ed25519)
        ∷ (codes "X25519", x25519)
        ∷ (codes "ES256K", es256k)
        ∷ (codes "secp256k1", es256k)
        ∷ [])
      j

-- `Algorithm`
unfoldable pub write_algorithm : Algorithm → Json
write_algorithm es256k_algorithm = string (codes "ES256K")
write_algorithm eddsa = string (codes "EdDSA")

unfoldable pub read_algorithm : Origin → Json → Option Algorithm
read_algorithm o j =
    read_variant o ((codes "ES256K", es256k_algorithm) ∷ (codes "EdDSA", eddsa) ∷ []) j

-- `KeyUse`
unfoldable pub write_use : KeyUse → Json
write_use signature = string (codes "sig")
write_use encryption = string (codes "enc")

unfoldable pub read_use : Origin → Json → Option KeyUse
read_use o j = read_variant o ((codes "sig", signature) ∷ (codes "enc", encryption) ∷ []) j

-- `ContentAlgorithm`
unfoldable pub write_enc : ContentAlgorithm → Json
write_enc a256gcm = string (codes "A256GCM")
write_enc xchacha20_poly1305 = string (codes "XChacha20+Poly1305")

unfoldable pub read_enc : Origin → Json → Option ContentAlgorithm
read_enc o j =
    read_variant o
      ((codes "A256GCM", a256gcm) ∷ (codes "XChacha20+Poly1305", xchacha20_poly1305) ∷ []) j

-- `KeyAlgorithm`
unfoldable pub write_alg : KeyAlgorithm → Json
write_alg ecdh_es = string (codes "ECDH-ES")
write_alg ecdh_es_a256kw = string (codes "ECDH-ES+A256KW")
write_alg ecies_es256k = string (codes "ECIES-ES256K")

unfoldable pub read_alg : Origin → Json → Option KeyAlgorithm
read_alg o j =
    read_variant o
      ((codes "ECDH-ES", ecdh_es)
        ∷ (codes "ECDH-ES+A256KW", ecdh_es_a256kw)
        ∷ (codes "ECIES-ES256K", ecies_es256k)
        ∷ [])
      j

-- `Zip`
unfoldable pub write_zip : Zip → Json
write_zip deflate = string (codes "DEF")

unfoldable pub read_zip : Origin → Json → Option Zip
read_zip o j = read_variant o ((codes "DEF", deflate) ∷ []) j

-- `PublicKeyJwk`
abbrev jwk_members : PublicKeyJwk → Members
jwk_members k = unless_none (codes "kid") string k.kid (
    member (codes "kty") (write_kty k.kty) (
      member (codes "crv") (write_crv k.crv) (
        member (codes "x") (string k.x) (
          unless_none (codes "y") string k.y (
            unless_none (codes "alg") write_alg k.alg
              (unless_none (codes "use") write_use k.use_ no_members))))))

unfoldable pub write_jwk : PublicKeyJwk → Json
write_jwk k = object (jwk_members k)

abbrev jwk_of_members : Origin → Members → Option PublicKeyJwk
jwk_of_members o ms = do
  kid ← optional (codes "kid") text_of ms
  kty ← required (codes "kty") (read_kty o) ms
  crv ← required (codes "crv") (read_crv o) ms
  x ← required (codes "x") text_of ms
  y ← optional (codes "y") text_of ms
  alg ← optional (codes "alg") (read_alg o) ms
  use_ ← optional (codes "use") (read_use o) ms
  some (record { kid = kid; kty = kty; crv = crv; x = x; y = y; alg = alg; use_ = use_ })

abbrev jwk_of_elements : Origin → Elements → Option PublicKeyJwk
jwk_of_elements o list = do
  (kid, list) ← next (read_option text_of) list
  (kty, list) ← next (read_kty o) list
  (crv, list) ← next (read_crv o) list
  (x, list) ← next text_of list
  (y, list) ← next (read_option text_of) list
  (alg, list) ← next (read_option (read_alg o)) list
  (use_, list) ← next (read_option (read_use o)) list
  ended (record { kid = kid; kty = kty; crv = crv; x = x; y = y; alg = alg; use_ = use_ }) list

unfoldable pub read_jwk : Origin → Json → Option PublicKeyJwk
unfolding read_kty read_crv read_alg read_use
read_jwk o = read_struct (jwk_of_members o) (jwk_of_elements o)

-- `Jwks`
unfoldable pub write_jwks : Jwks → Json
unfolding write_jwk
write_jwks ks = object (member (codes "keys") (array (write_list write_jwk ks.keys)) no_members)

abbrev jwks_of_members : Origin → Members → Option Jwks
jwks_of_members o ms = do
  keys ← required (codes "keys") (read_list (read_jwk o)) ms
  some (record { keys = keys })

abbrev jwks_of_elements : Origin → Elements → Option Jwks
jwks_of_elements o list = do
  (keys, list) ← next (read_list (read_jwk o)) list
  ended (record { keys = keys }) list

unfoldable pub read_jwks : Origin → Json → Option Jwks
unfolding read_jwk
read_jwks o = read_struct (jwks_of_members o) (jwks_of_elements o)
