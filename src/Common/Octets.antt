-- ===== src/Common/Octets.antt =====
-- `u8` as two hexadecimal digits: exactly 256 values. The source compares and copies bytes, and
-- does no arithmetic on them.
use mathlib.Core.List.{List}

pub data Nibble : Type 0 where
  x0 x1 x2 x3 x4 x5 x6 x7 x8 x9 xa xb xc xd xe xf : Nibble

pub data Byte : Type 0 where
  byte : Nibble → Nibble → Byte

abbrev pub Bytes : Type 0
Bytes = List Byte

unfoldable pub Byte-discrete : Discrete Byte
Byte-discrete = hlevel

unfoldable pub Bytes-discrete : Discrete Bytes
unfolding Byte-discrete
Bytes-discrete = hlevel
