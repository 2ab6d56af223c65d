-- ===== src/Examples/CborBytes.antt =====
-- The bytes of CBOR (RFC 8949) for small integers, byte strings and maps of them, to run the
-- vectors of the tests: numbers below 24 stand in the first byte, those below 256 behind it.
use infosec.Common.{
  ℕ, zero, suc, ◌+◌, ◌*◌, ◌/◌, ◌%◌, Option, none, some, [], ◌∷◌, ◌++◌, length, take, drop, ltb,
  ◌==◌, if◌then◌else◌, ◌&&◌, not, Bytes, pos, negsuc,
}
use infosec.Foreign.Encodings.{Codec, Hex}
use infosec.Foreign.Cbor.{Value, integer, bytes, map, Entries, end, entry}
use infosec.Examples.Encodings.{hex_base64}
use infosec.Examples.Radix.{to_number, to_byte}

infixl 5 ◌>>=◌
abbrev ◌>>=◌ : {A B : Type 0} → Option A → (A → Option B) → Option B
none >>= next = none
some a >>= next = next a

abbrev head : ℕ → ℕ → Option Bytes
head major n =
    if ltb n 24
    then some (to_byte (major * 32 + n) ∷ [])
    else if ltb n 256
    then some (to_byte (major * 32 + 24) ∷ to_byte n ∷ [])
    else none

abbrev count : Entries → ℕ
count end = 0
count (entry _ _ es) = suc (count es)

abbrev write_item : Value → Option Bytes
write_item (integer (pos n)) = head 0 n
write_item (integer (negsuc n)) = head 1 n
write_item (bytes b) = do h ← head 2 (length b); some (h ++ b)
write_item _ = none

abbrev write_entries : Entries → Option Bytes
write_entries end = some []
write_entries (entry k v es) = do
  a ← write_item k
  b ← write_item v
  rest ← write_entries es
  some (a ++ (b ++ rest))

abbrev write : Value → Option Bytes
write (map es) = do h ← head 5 (count es); b ← write_entries es; some (h ++ b)
write v = write_item v

-- The major type, the number behind it, and what follows.
abbrev read_head : Bytes → Option (ℕ × ℕ × Bytes)
read_head [] = none
read_head (b ∷ rest) =
    let info = to_number b % 32 in
    if ltb info 24 then some (to_number b / 32, info, rest) else elim rest [
      | [] ↦ none
      | c ∷ rest ↦
          if info == 24 && not (ltb (to_number c) 24)
          then some (to_number b / 32, to_number c, rest)
          else none
    ]

abbrev split_at : ℕ → Bytes → Option (Bytes × Bytes)
split_at n b = if ltb (length b) n then none else some (take n b, drop n b)

abbrev item : ℕ → ℕ → Bytes → Option (Value × Bytes)
item zero n rest = some (integer (pos n), rest)
item (suc zero) n rest = some (integer (negsuc n), rest)
item (suc (suc zero)) n rest = do (b, after) ← split_at n rest; some (bytes b, after)
item _ n rest = none

abbrev read_item : Bytes → Option (Value × Bytes)
read_item b = do (major, n, rest) ← read_head b; item major n rest

abbrev read_entries : ℕ → Bytes → Option (Entries × Bytes)
read_entries zero b = some (end, b)
read_entries (suc n) b = do
  (k, b₁) ← read_item b
  (v, b₂) ← read_item b₁
  (es, rest) ← read_entries n b₂
  some (entry k v es, rest)

abbrev value : ℕ → ℕ → Bytes → Option (Value × Bytes)
value major n rest =
    if major == 5
    then (do (es, after) ← read_entries n rest; some (map es, after))
    else item major n rest

-- Bytes behind the value are left unread.
abbrev read : Bytes → Option Value
read b = do (major, n, rest) ← read_head b; (v, _) ← value major n rest; some v

abbrev pub cbor_values : Codec Value
cbor_values = record { to_vec = write; from_slice = read }

abbrev pub hex : Hex
hex = record { encode = hex_base64.encode_string; decode = hex_base64.decode_vec }
