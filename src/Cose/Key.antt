-- ===== src/Cose/Key.antt =====
-- cose/key.rs: `CoseKey` to a CBOR value and back.
pub mod RoundTrip
pub mod Labels
pub mod Wire
pub mod Checks
use mathlib.Core.Option
use infosec.Common.{
  ℕ, ℤ, pos, negsuc, ℤ-discrete, Bool, true, false, Option, none, some, List, [], ◌∷◌,
}
use infosec.Common.{Bytes, holds, if◌then◌else◌}
use infosec.Common.{Outcome, ok, err, message, caused, or_err, ◌>>=◌}
use infosec.Types.{KeyType, okp, ec, oct, KeyType-discrete, Curve, ed25519, x25519, es256k}
use infosec.Foreign.Cbor.{Value, Value-discrete, Entries, end, entry, as_integer, as_bytes}
use infosec.Foreign.Cbor.{integer, bytes, float, text, bool, null, tag, array, map}

-- KEY_TYPE, CURVE, X and Y.
abbrev pub key_type_label : ℤ
key_type_label = pos 1

abbrev pub curve_label : ℤ
curve_label = negsuc 0

abbrev pub x_label : ℤ
x_label = negsuc 1

abbrev pub y_label : ℤ
y_label = negsuc 2

pub record CoseKey : Type 0 where
  pub kty : KeyType
  pub crv : Curve
  pub x : Bytes
  pub y : Option Bytes

-- `From<KeyType> for Value`
unfoldable pub value_of_key_type : KeyType → Value
value_of_key_type okp = integer (pos 1)
value_of_key_type ec = integer (pos 2)
value_of_key_type oct = integer (pos 4)

abbrev key_type_of_integer : ℤ → Outcome KeyType
key_type_of_integer n =
    if holds (ℤ-discrete n (pos 1))
    then ok okp
    else if holds (ℤ-discrete n (pos 2))
    then ok ec
    else if holds (ℤ-discrete n (pos 4))
    then ok oct
    else err (message "unsupported key type")

-- `TryInto<KeyType> for Value`
unfoldable pub key_type_of_value : Value → Outcome KeyType
unfolding ℤ-discrete
key_type_of_value v = do
  n ← or_err (as_integer v) (message "issue deserializing key type")
  key_type_of_integer n

-- `From<Curve> for Value`
unfoldable pub value_of_curve : Curve → Value
value_of_curve ed25519 = integer (pos 6)
value_of_curve es256k = integer (pos 8)
value_of_curve x25519 = integer (pos 1)

abbrev curve_of_integer : ℤ → Outcome Curve
curve_of_integer n =
    if holds (ℤ-discrete n (pos 6))
    then ok ed25519
    else if holds (ℤ-discrete n (pos 8))
    then ok es256k
    else err (caused "unsupported curve")

-- `TryInto<Curve> for Value`
unfoldable pub curve_of_value : Value → Outcome Curve
unfolding ℤ-discrete
curve_of_value v = do
  n ← or_err (as_integer v) (message "issue deserializing curve")
  curve_of_integer n

-- The entry for Y that is pushed for an EC key; an absent coordinate is an empty byte string.
unfoldable pub y_entries : CoseKey → Entries
unfolding KeyType-discrete
y_entries key =
    if holds (KeyType-discrete key.kty ec)
    then entry (integer y_label) (bytes (Option.get_or key.y [])) end
    else end

-- `From<CoseKey> for Value`
unfoldable pub to_value : CoseKey → Value
unfolding value_of_key_type value_of_curve y_entries
to_value key = map (
    entry (integer key_type_label) (value_of_key_type key.kty) (
      entry (integer curve_label) (value_of_curve key.crv)
        (entry (integer x_label) (bytes key.x) (y_entries key))))

-- `BTreeMap<Integer, Value>`. The order of its entries is never read.
abbrev pub BTreeMap : Type 0
BTreeMap = List (ℤ × Value)

unfoldable pub insert : ℤ → Value → BTreeMap → BTreeMap
insert k v [] = (k, v) ∷ []
insert k v ((j, w) ∷ m) = if holds (ℤ-discrete j k) then (k, v) ∷ m else (j, w) ∷ insert k v m

-- The value that was removed, and what is left.
unfoldable pub remove : ℤ → BTreeMap → Option Value × BTreeMap
remove k [] = (none, [])
remove k ((j, w) ∷ m) =
    let (found, rest) = remove k m in
    if holds (ℤ-discrete j k) then (some w, m) else (found, (j, w) ∷ rest)

-- `map.into_iter().map(…).collect()`: a later entry of a key replaces an earlier one.
unfoldable pub collect : BTreeMap → Entries → BTreeMap
unfolding insert
collect m end = m
collect m (entry k v es) = collect (insert (Option.get_or (as_integer k) (pos 0)) v m) es

-- The pattern `Some(Value::Bytes(x))`.
abbrev bytes_of : Option Value → Option Bytes
bytes_of none = none
bytes_of (some v) = as_bytes v

-- The Y coordinate is read if `kty` is the value of an EC key; `kty` is not decoded yet.
unfoldable pub read_y : Value → BTreeMap → Outcome (Option Bytes)
unfolding remove value_of_key_type Value-discrete
read_y kty m =
    if holds (Value-discrete kty (value_of_key_type ec))
    then (do y ← or_err (remove y_label m).0 (message "y coordinate not found"); ok (as_bytes y))
    else ok none

unfoldable pub from_map : BTreeMap → Outcome CoseKey
unfolding remove read_y key_type_of_value curve_of_value
from_map m = do
  let (kty?, m₁) = remove key_type_label m
  kty ← or_err kty? (message "key type not found")
  let (crv?, m₂) = remove curve_label m₁
  crv ← or_err crv? (message "curve not found")
  let (x?, m₃) = remove x_label m₂
  x ← or_err (bytes_of x?) (message "x coordinate not found")
  y ← read_y kty m₃
  kty' ← key_type_of_value kty
  crv' ← curve_of_value crv
  ok (record { kty = kty'; crv = crv'; x = x; y = y })

-- `TryFrom<Value> for CoseKey`
unfoldable pub try_from : Value → Outcome CoseKey
unfolding collect from_map
try_from (map es) = from_map (collect [] es)
try_from _ = err (caused "Value is not a map")
