-- ===== src/Common/Utf8.antt =====
-- `str::as_bytes`: UTF-8.
use Prim.Native.Nat.{ℕ, ◌+◌, ◌/◌, ◌%◌}
use mathlib.Core.List.{[], ◌∷◌, ◌++◌}
use infosec.Common.Tests.{ltb, if◌then◌else◌}
use infosec.Common.Octets.{
  Nibble, x0, x1, x2, x3, x4, x5, x6, x7, x8, x9, xa, xb, xc, xd, xe, xf, Byte, byte, Bytes,
}
use infosec.Common.Strings.{Text}

-- The digit of a number below 16.
abbrev nibble_of : ℕ → Nibble
nibble_of n =
    if ltb n 8
    then (if ltb n 4
        then (if ltb n 2 then (if ltb n 1 then x0 else x1) else (if ltb n 3 then x2 else x3))
        else (if ltb n 6 then (if ltb n 5 then x4 else x5) else (if ltb n 7 then x6 else x7)))
    else (if ltb n 12
        then (if ltb n 10 then (if ltb n 9 then x8 else x9) else (if ltb n 11 then xa else xb))
        else (if ltb n 14 then (if ltb n 13 then xc else xd) else (if ltb n 15 then xe else xf)))

-- The byte of a number below 256.
unfoldable pub byte_of : ℕ → Byte
byte_of n = byte (nibble_of (n / 16)) (nibble_of (n % 16))

-- The bytes of one code point.
unfoldable pub utf8 : ℕ → Bytes
unfolding byte_of
utf8 c =
    if ltb c 0x80
    then byte_of c ∷ []
    else if ltb c 0x800
    then byte_of (0xc0 + c / 64) ∷ byte_of (0x80 + c % 64) ∷ []
    else if ltb c 0x10000
    then byte_of (0xe0 + c / 4096) ∷ byte_of (0x80 + c / 64 % 64) ∷ byte_of (0x80 + c % 64) ∷ []
    else byte_of (0xf0 + c / 262144)
      ∷ byte_of (0x80 + c / 4096 % 64)
      ∷ byte_of (0x80 + c / 64 % 64)
      ∷ byte_of (0x80 + c % 64)
      ∷ []

unfoldable pub as_bytes : Text → Bytes
unfolding utf8
as_bytes [] = []
as_bytes (c ∷ s) = utf8 c ++ as_bytes s
