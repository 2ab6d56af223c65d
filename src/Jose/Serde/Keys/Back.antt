-- ===== src/Jose/Serde/Keys/Back.antt =====
-- lib.rs, jose/jwa.rs, jose/jwk.rs, jose/jwe.rs: the JSON that is written of keys and algorithms,
-- and its reading.
use infosec.Common.{◌≡◌, refl, false, some, codes}
use infosec.Types.{KeyType, okp, ec, oct, Curve, ed25519, x25519, es256k}
use infosec.Foreign.Json.{string, is_null}
use infosec.Jose.Jwa.{Algorithm, es256k as es256k_algorithm, eddsa}
use infosec.Jose.Jwk.{KeyUse, signature, encryption, PublicKeyJwk, Jwks}
use infosec.Jose.Jwe.Algorithms.{
  ContentAlgorithm, a256gcm, xchacha20_poly1305, KeyAlgorithm, ecdh_es, ecdh_es_a256kw,
  ecies_es256k, Zip, deflate,
}
use infosec.Jose.Serde.Lookup.{
  Reads, get_all-unless_none, opt_value-listed, read_elements-write_list,
}
use infosec.Jose.Serde.{Origin, required, optional, text_of}
use infosec.Jose.Serde.Keys.{
  write_kty, read_kty, write_crv, read_crv, write_algorithm, read_algorithm, write_use, read_use,
  write_enc, read_enc, write_alg, read_alg, write_zip, read_zip, jwk_members, write_jwk, read_jwk,
  write_jwks, read_jwks,
}

pub text-Reads : Reads string text_of
text-Reads = record { back = λ t. refl; real = λ t. refl }

kty-back : (o : Origin) (k : KeyType) → read_kty o (write_kty k) ≡ some k
unfolding write_kty read_kty
kty-back o okp = refl
kty-back o ec = refl
kty-back o oct = refl

crv-back : (o : Origin) (k : Curve) → read_crv o (write_crv k) ≡ some k
unfolding write_crv read_crv
crv-back o ed25519 = refl
crv-back o x25519 = refl
crv-back o es256k = refl

pub algorithm-back : (o : Origin) (a : Algorithm) → read_algorithm o (write_algorithm a) ≡ some a
unfolding write_algorithm read_algorithm
algorithm-back o es256k_algorithm = refl
algorithm-back o eddsa = refl

pub enc-back : (o : Origin) (a : ContentAlgorithm) → read_enc o (write_enc a) ≡ some a
unfolding write_enc read_enc
enc-back o a256gcm = refl
enc-back o xchacha20_poly1305 = refl

pub alg-Reads : (o : Origin) → Reads write_alg (read_alg o)
unfolding write_alg read_alg
alg-Reads o = record { back = back; real = real }
  where
    back : (k : KeyAlgorithm) → read_alg o (write_alg k) ≡ some k
    back ecdh_es = refl
    back ecdh_es_a256kw = refl
    back ecies_es256k = refl

    real : (k : KeyAlgorithm) → is_null (write_alg k) ≡ false
    real ecdh_es = refl
    real ecdh_es_a256kw = refl
    real ecies_es256k = refl

use-Reads : (o : Origin) → Reads write_use (read_use o)
unfolding write_use read_use
use-Reads o = record { back = back; real = real }
  where
    back : (k : KeyUse) → read_use o (write_use k) ≡ some k
    back signature = refl
    back encryption = refl

    real : (k : KeyUse) → is_null (write_use k) ≡ false
    real signature = refl
    real encryption = refl

pub read_jwk-write_jwk : (o : Origin) (k : PublicKeyJwk) → read_jwk o (write_jwk k) ≡ some k
unfolding read_jwk write_jwk
read_jwk-write_jwk o k =
    let kid : optional (codes "kid") text_of (jwk_members k) ≡ some k.kid =
      simp get_all-unless_none (opt_value-listed string text_of text-Reads k.kid) in
    let kty : required (codes "kty") (read_kty o) (jwk_members k) ≡ some k.kty =
      simp get_all-unless_none (kty-back o k.kty) in
    let crv : required (codes "crv") (read_crv o) (jwk_members k) ≡ some k.crv =
      simp get_all-unless_none (crv-back o k.crv) in
    let x : required (codes "x") text_of (jwk_members k) ≡ some k.x =
      simp get_all-unless_none refl in
    let y : optional (codes "y") text_of (jwk_members k) ≡ some k.y =
      simp get_all-unless_none (opt_value-listed string text_of text-Reads k.y) in
    let alg : optional (codes "alg") (read_alg o) (jwk_members k) ≡ some k.alg =
      simp get_all-unless_none (opt_value-listed write_alg (read_alg o) (alg-Reads o) k.alg) in
    let use_ : optional (codes "use") (read_use o) (jwk_members k) ≡ some k.use_ =
      simp get_all-unless_none (opt_value-listed write_use (read_use o) (use-Reads o) k.use_) in
    rw (kid, kty, crv, x, y, alg, use_) refl

zip-back : (o : Origin) (z : Zip) → read_zip o (write_zip z) ≡ some z
unfolding write_zip read_zip
zip-back o deflate = refl

read_jwks-write_jwks : (o : Origin) (ks : Jwks) → read_jwks o (write_jwks ks) ≡ some ks
unfolding read_jwks write_jwks
read_jwks-write_jwks o ks =
    rw (read_elements-write_list write_jwk (read_jwk o) (read_jwk-write_jwk o) ks.keys) refl

-- Every value of the shared types is read back as itself from what is written of it, wherever it
-- stands: key types, curves, the algorithms of signatures, of keys and of content, key uses,
-- compressions, keys and key sets.
pub read-write :
    (o : Origin)
    → ((k : KeyType) → read_kty o (write_kty k) ≡ some k)
      × ((c : Curve) → read_crv o (write_crv c) ≡ some c)
      × ((a : Algorithm) → read_algorithm o (write_algorithm a) ≡ some a)
      × ((a : KeyAlgorithm) → read_alg o (write_alg a) ≡ some a)
      × ((a : ContentAlgorithm) → read_enc o (write_enc a) ≡ some a)
      × ((u : KeyUse) → read_use o (write_use u) ≡ some u)
      × ((z : Zip) → read_zip o (write_zip z) ≡ some z)
      × ((k : PublicKeyJwk) → read_jwk o (write_jwk k) ≡ some k)
      × ((ks : Jwks) → read_jwks o (write_jwks ks) ≡ some ks)
read-write o = (
  kty-back o,
  crv-back o,
  algorithm-back o,
  (alg-Reads o).back,
  enc-back o,
  (use-Reads o).back,
  zip-back o,
  read_jwk-write_jwk o,
  read_jwks-write_jwks o,
)
