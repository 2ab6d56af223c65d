-- ===== src/Cose/Key/RoundTrip.antt =====
-- A key through a CBOR value and back.
use mathlib.Core.Option
use infosec.Common.{◌≡◌, refl, ◌≢◌, ◌↔◌, Bool, true, false, Option, none, some, []}
use infosec.Common.{Bytes, arith}
use infosec.Common.{Outcome, ok, err, caused}
use infosec.Types.{KeyType, okp, ec, oct, KeyType-discrete, Curve, ed25519, x25519, es256k}
use infosec.Cose.Key.{CoseKey, to_value, try_from}

-- The Y coordinate that CBOR keeps: an EC key has one, empty where there was none, and other keys
-- have none.
abbrev pub carried_y : KeyType → Option Bytes → Option Bytes
carried_y ec y = some (Option.get_or y [])
carried_y _ y = none

-- X25519 has a label to write and none to read.
abbrev pub read_back : Curve → CoseKey → Outcome CoseKey
read_back x25519 key = err (caused "unsupported curve")
read_back _ key = ok (record key { y = carried_y key.kty key.y })

try_from-to_fields :
    (kty : KeyType) (crv : Curve) (x : Bytes) (y : Option Bytes)
    → let key : CoseKey = record { kty = kty; crv = crv; x = x; y = y } in
      try_from (to_value key) ≡ read_back crv key
unfolding to_value try_from KeyType-discrete
try_from-to_fields okp ed25519 x y = refl
try_from-to_fields okp es256k x y = refl
try_from-to_fields okp x25519 x y = refl
try_from-to_fields ec ed25519 x y = refl
try_from-to_fields ec es256k x y = refl
try_from-to_fields ec x25519 x y = refl
try_from-to_fields oct ed25519 x y = refl
try_from-to_fields oct es256k x y = refl
try_from-to_fields oct x25519 x y = refl

-- What every key comes back as. One on curve X25519 is refused; any other comes back with its key
-- type, its curve and its X coordinate, and with a Y coordinate exactly if it is an EC key: its
-- own, or an empty one where it had none.
pub try_from-to_value : (key : CoseKey) → try_from (to_value key) ≡ read_back key.crv key
try_from-to_value key = try_from-to_fields key.kty key.crv key.x key.y

abbrev pub has_y : Option Bytes → Bool
has_y none = false
has_y (some _) = true

abbrev pub needs_y : KeyType → Bool
needs_y ec = true
needs_y _ = false

-- The keys that CBOR can hold: on a curve other than X25519, and with a Y coordinate exactly if the
-- key type is EC.
pub record IsStorable (key : CoseKey) : Type 0 where
  pub curve : key.crv ≢ x25519
  pub coordinate : has_y key.y ≡ needs_y key.kty

carried_y_iff : (kty : KeyType) (y : Option Bytes) → (carried_y kty y ≡ y) ↔ (has_y y ≡ needs_y kty)
carried_y_iff okp none = (λ _. refl, λ _. refl)
carried_y_iff okp (some y) = (λ h. cc, λ h. cc)
carried_y_iff ec none = (λ h. cc, λ h. cc)
carried_y_iff ec (some y) = (λ _. refl, λ _. refl)
carried_y_iff oct none = (λ _. refl, λ _. refl)
carried_y_iff oct (some y) = (λ h. cc, λ h. cc)

read_back_iff :
    (kty : KeyType) (crv : Curve) (x : Bytes) (y : Option Bytes)
    → let key : CoseKey = record { kty = kty; crv = crv; x = x; y = y } in
      (read_back crv key ≡ ok key) ↔ IsStorable key
read_back_iff kty x25519 x y = (λ h. cc, λ s. absurd (s.curve refl))
read_back_iff kty ed25519 x y = (
  λ h. record { curve = λ e. cc; coordinate = (carried_y_iff kty y).0 (ground arith) },
  λ s. rw ((carried_y_iff kty y).1 s.coordinate),
)
read_back_iff kty es256k x y = (
  λ h. record { curve = λ e. cc; coordinate = (carried_y_iff kty y).0 (ground arith) },
  λ s. rw ((carried_y_iff kty y).1 s.coordinate),
)

-- A key comes back as itself exactly if CBOR can hold it.
pub try_from-to_value_iff : (key : CoseKey) → (try_from (to_value key) ≡ ok key) ↔ IsStorable key
try_from-to_value_iff key = rw try_from-to_value (read_back_iff key.kty key.crv key.x key.y)
