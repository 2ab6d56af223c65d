-- ===== src/Foreign/Cbor.antt =====
-- `ciborium::Value`, and the collection of its map entries into a `BTreeMap`.
use native.Mathlib.Decide.{ℕ_discrete}
use infosec.Common.{ℕ, ℤ, ℤ-discrete, Bool, Option, none, some, Bytes, Text}
use infosec.Common.{Bytes-discrete, Text-discrete}

-- A float is given by its bits.
mutual
  pub data Value : Type 0 where
    integer : ℤ → Value
    bytes : Bytes → Value
    float : ℕ → Value
    text : Text → Value
    bool : Bool → Value
    null : Value
    tag : ℕ → Value → Value
    array : Values → Value
    map : Entries → Value

  pub data Values : Type 0 where
    nil : Values
    cons : Value → Values → Values

  pub data Entries : Type 0 where
    end : Entries
    entry : Value → Value → Entries → Entries

unfoldable pub Value-discrete : Discrete Value
unfolding ℕ_discrete ℤ-discrete Bytes-discrete Text-discrete
Value-discrete = hlevel (ℕ_discrete)

abbrev pub as_integer : Value → Option ℤ
as_integer (integer n) = some n
as_integer _ = none

abbrev pub as_bytes : Value → Option Bytes
as_bytes (bytes b) = some b
as_bytes _ = none
