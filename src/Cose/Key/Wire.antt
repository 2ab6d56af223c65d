-- ===== src/Cose/Key/Wire.antt =====
-- cose/key.rs, the attribute `try_from = "Value", into = "Value"`, with cose/cbor.rs: a key to bytes
-- and back.
use infosec.Common.{◌≡◌, sym, ap, ◌↔◌, Option, none, some, Bytes}
use infosec.Common.{Outcome, ok, err, panic, returned, caused, or_err, or_err-eq-ok}
use infosec.Foreign.Encodings.{Codec, IsRoundTrip}
use infosec.Foreign.Cbor.{Value}
use infosec.Cose.Cbor.{to_vec, from_slice}
use infosec.Cose.Key.{CoseKey, to_value, try_from}
use infosec.Cose.Key.RoundTrip.{IsStorable, try_from-to_value_iff}

abbrev read_key : Option Value → Option CoseKey
read_key none = none
read_key (some value) = returned (try_from value)

-- The format of keys, by that of values.
abbrev pub key_codec : Codec Value → Codec CoseKey
key_codec values = record {
  to_vec = λ key. values.to_vec (to_value key);
  from_slice = λ bytes. read_key (values.from_slice bytes);
}

returned-eq-ok :
    {A : Type 0} (o : Outcome A) (a : A)
    → (or_err (returned o) (caused "CoseError::DecodeFailed") ≡ ok a) ↔ (o ≡ ok a)
returned-eq-ok (ok b) a = (λ h. h, λ h. h)
returned-eq-ok (err e) a = (λ h. cc, λ h. cc)
returned-eq-ok panic a = (λ h. cc, λ h. cc)

-- Where the format reads back the values that it wrote: the bytes that are written of a key are
-- read as the key exactly if CBOR can hold it, that is if it is on a curve other than X25519 and
-- has a Y coordinate exactly if its type is EC.
pub from_slice-to_vec :
    (values : Codec Value)
    → IsRoundTrip values
    → (key : CoseKey) (bytes : Bytes) → to_vec (key_codec values) key ≡ ok bytes
    → (from_slice (key_codec values) bytes ≡ ok key) ↔ IsStorable key
unfolding to_vec from_slice
from_slice-to_vec values laws key bytes h =
    let written = or_err-eq-ok _ _ h in
    let back : values.from_slice bytes ≡ some (to_value key) =
      laws.from_slice-to_vec (to_value key) bytes written in
    let (there, again) = returned-eq-ok (try_from (to_value key)) key in
    (
      λ e. (try_from-to_value_iff key).0 (there (rw (ap read_key (sym back)) e)),
      λ s. rw back (again ((try_from-to_value_iff key).1 s)),
    )
