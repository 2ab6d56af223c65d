-- ===== src/Cose/Key/Labels.antt =====
-- cose/key.rs: the entries of a CBOR map by their labels.
use mathlib.Core.Option
use mathlib.Core.Option.{or_else}
use infosec.Common.{◌≡◌, refl, ◌≢◌, ◌∙◌, ℤ, pos, ℤ-discrete, Option, none, some, [], ◌∷◌}
use infosec.Common.{holds, holds_iff, if◌then◌else◌, arith}
use infosec.Common.{Outcome, ok, message, or_err, ◌>>=◌}
use infosec.Types.{ec}
use infosec.Foreign.Cbor.{Value, Value-discrete, Entries, end, entry, as_integer, as_bytes, map}
use infosec.Cose.Key.{CoseKey, BTreeMap, insert, remove, collect, from_map, try_from, bytes_of}
use infosec.Cose.Key.{
  key_type_label, curve_label, x_label, y_label, value_of_key_type, key_type_of_value,
  curve_of_value, read_y,
}

-- The last value at an integer label. Entries whose key is no integer do not count.
abbrev pub value_at : ℤ → Entries → Option Value
value_at l end = none
value_at l (entry k v es) =
    or_else (value_at l es) (elim (as_integer k) [
      | none ↦ none
      | some n ↦ if holds (ℤ-discrete n l) then some v else none
    ])

-- A key from the values at its labels.
abbrev pub from_labels : Option Value → Option Value → Option Value → Option Value → Outcome CoseKey
from_labels kty? crv? x? y? = do
  kty ← or_err kty? (message "key type not found")
  crv ← or_err crv? (message "curve not found")
  x ← or_err (bytes_of x?) (message "x coordinate not found")
  y ←
      if holds (Value-discrete kty (value_of_key_type ec))
      then (do y ← or_err y? (message "y coordinate not found"); ok (as_bytes y))
      else ok none
  kty' ← key_type_of_value kty
  crv' ← curve_of_value crv
  ok (record { kty = kty'; crv = crv'; x = x; y = y })

lookup : ℤ → BTreeMap → Option Value
lookup l [] = none
lookup l ((k, v) ∷ m) = if holds (ℤ-discrete k l) then some v else lookup l m

lookup-insert :
    (l k : ℤ) (v : Value) (m : BTreeMap)
    → lookup l (insert k v m) ≡ (if holds (ℤ-discrete k l) then some v else lookup l m)
unfolding lookup insert
lookup-insert l k v [] = refl
lookup-insert l k v ((j, w) ∷ m) = ground (
  arith,
  lookup-insert l k v m,
  holds_iff (ℤ-discrete j k),
  holds_iff (ℤ-discrete j l),
  holds_iff (ℤ-discrete k l),
)

remove-lookup : (k : ℤ) (m : BTreeMap) → (remove k m).0 ≡ lookup k m
unfolding lookup remove
remove-lookup k [] = refl
remove-lookup k ((j, w) ∷ m) = ground (arith, remove-lookup k m)

key_type≢curve : key_type_label ≢ curve_label
key_type≢curve = grind arith

curve≢x : curve_label ≢ x_label
curve≢x = grind arith

key_type≢x : key_type_label ≢ x_label
key_type≢x = grind arith

x≢y : x_label ≢ y_label
x≢y = grind arith

curve≢y : curve_label ≢ y_label
curve≢y = grind arith

key_type≢y : key_type_label ≢ y_label
key_type≢y = grind arith

zero≢key_type : pos 0 ≢ key_type_label
zero≢key_type = grind arith

zero≢curve : pos 0 ≢ curve_label
zero≢curve = grind arith

zero≢x : pos 0 ≢ x_label
zero≢x = grind arith

zero≢y : pos 0 ≢ y_label
zero≢y = grind arith

lookup-remove : (l k : ℤ) (m : BTreeMap) → k ≢ l → lookup l (remove k m).1 ≡ lookup l m
unfolding lookup remove
lookup-remove l k [] h = refl
lookup-remove l k ((j, w) ∷ m) h =
    ground (arith, lookup-remove l k m, holds_iff (ℤ-discrete j k), holds_iff (ℤ-discrete j l))

lookup-collect :
    (l : ℤ) (m : BTreeMap) (es : Entries)
    → pos 0 ≢ l
    → lookup l (collect m es) ≡ or_else (value_at l es) (lookup l m)
unfolding collect or_else
lookup-collect l m end h = refl
lookup-collect l m (entry k v es) h =
    let step = Option.get_or (as_integer k) (pos 0) in
    ground (
      arith,
      lookup-collect l (insert step v m) es h,
      lookup-insert l step v m,
      holds_iff (ℤ-discrete (pos 0) l),
    )

lookup-empty : (l : ℤ) (es : Entries) → pos 0 ≢ l → lookup l (collect [] es) ≡ value_at l es
unfolding lookup or_else
lookup-empty l es h = ground (arith, lookup-collect l [] es h)

from_map-labels :
    (m : BTreeMap)
    → from_map m
      ≡ from_labels
          (lookup key_type_label m)
          (lookup curve_label m)
          (lookup x_label m)
          (lookup y_label m)
unfolding from_map read_y
from_map-labels m =
    simp
      (remove-lookup, lookup-remove, key_type≢curve, curve≢x, key_type≢x, x≢y, curve≢y, key_type≢y)

-- Decoding a map reads it at four labels, KEY_TYPE, CURVE, X and Y, and takes the last value that
-- the map has there; the order of the entries, the entries under other labels and the entries
-- whose key is no integer make no difference.
pub try_from-labels :
    (es : Entries)
    → try_from (map es)
      ≡ from_labels
          (value_at key_type_label es)
          (value_at curve_label es)
          (value_at x_label es)
          (value_at y_label es)
unfolding try_from
try_from-labels es =
    from_map-labels (collect [] es) ∙ simp (lookup-empty, zero≢key_type, zero≢curve, zero≢x, zero≢y)
