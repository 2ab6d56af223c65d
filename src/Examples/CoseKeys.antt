-- ===== src/Examples/CoseKeys.antt =====
-- cose/cbor.rs and cose/key.rs on small keys and values.
use mathlib.Core.Option.{or_else}
use infosec.Common.{
  Bytes, ◌≡◌, refl, ◌↔◌, pos, negsuc, none, some, [], ◌∷◌, byte, x0, x2, x3, codes, ok, err, caused,
}
use infosec.Types.{okp, ec, ed25519, x25519, es256k}
use infosec.Foreign.Cbor.{Entries, end, entry, integer, bytes, text, tag, map}
use infosec.Foreign.Encodings.{Codec}
use infosec.Foreign.Cbor.{Value, Value-discrete}
use infosec.Cose.Key.Wire.{key_codec, from_slice-to_vec}
use infosec.Cose.Cbor.{Tag24, try_from, to_vec, from_slice}
use infosec.Cose.Cbor.RoundTrip.{IsTagged, try_from-IsTagged}
use infosec.Cose.Key
use infosec.Cose.Key.{CoseKey, key_type_label, curve_label, x_label, y_label}
use infosec.Cose.Key.RoundTrip.{IsStorable, try_from-to_value}
use infosec.Cose.Key.Labels.{from_labels, try_from-labels}
use infosec.Examples.Encodings.{mark, raw, codec_of, codec_of-IsRoundTrip}

abbrev ec_key : CoseKey
ec_key = record { kty = ec; crv = es256k; x = byte x0 x2 ∷ []; y = some (byte x0 x3 ∷ []) }

abbrev agreement_key : CoseKey
agreement_key = record { kty = okp; crv = x25519; x = byte x0 x2 ∷ []; y = none }

-- The labels in another order, with an extra entry and a curve that a later entry replaces.
abbrev shuffled : Entries
shuffled = entry (integer (negsuc 1)) (bytes (byte x0 x2 ∷ [])) (
    entry (integer (negsuc 0)) (integer (pos 99)) (
      entry (text (codes "kid")) (bytes mark) (
        entry (integer (pos 1)) (integer (pos 1))
          (entry (integer (negsuc 0)) (integer (pos 6)) end))))

abbrev tagged_mark : Tag24 Bytes
tagged_mark = record { inner = mark }

agreement_key_refused : Key.try_from (Key.to_value agreement_key) ≡ err (caused "unsupported curve")
agreement_key_refused = try_from-to_value agreement_key

shuffled_read :
    Key.try_from (map shuffled)
    ≡ ok (record { kty = okp; crv = ed25519; x = byte x0 x2 ∷ []; y = none })
unfolding Key.try_from
shuffled_read = refl

try_from-labels_example :
    Key.try_from (map shuffled)
    ≡ from_labels
        (some (integer (pos 1)))
        (some (integer (pos 6)))
        (some (bytes (byte x0 x2 ∷ [])))
        none
unfolding Key.try_from or_else
try_from-labels_example = try_from-labels shuffled

try_from-IsTagged_example :
    (try_from raw (tag 24 (bytes mark)) ≡ ok tagged_mark) ↔ IsTagged raw (tag 24 (bytes mark)) mark
try_from-IsTagged_example = try_from-IsTagged raw (tag 24 (bytes mark)) tagged_mark

-- A format that writes the value of the key.
abbrev key_values : Codec Value
key_values = codec_of Value-discrete (Key.to_value ec_key)

from_slice-to_vec_example : (from_slice (key_codec key_values) mark ≡ ok ec_key) ↔ IsStorable ec_key
unfolding to_vec Key.to_value Value-discrete
from_slice-to_vec_example =
    from_slice-to_vec key_values (codec_of-IsRoundTrip Value-discrete (Key.to_value ec_key)) ec_key
      mark refl
