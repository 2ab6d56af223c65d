-- ===== src/Examples/Radix.antt =====
-- base64url without padding (RFC 4648) and base58btc as they are, to run the vectors of the tests.
use infosec.Common.{
  ℕ, zero, suc, ◌+◌, ◌*◌, ◌/◌, ◌%◌, Option, none, some, List, [], ◌∷◌, ◌++◌, length, codes,
  if◌then◌else◌, ◌==◌, Bytes, Text, Nibble, Byte, byte,
}
use infosec.Common.{x0, x1, x2, x3, x4, x5, x6, x7, x8, x9, xa, xb, xc, xd, xe, xf}
use infosec.Foreign.Encodings.{Base64, Multibase}

abbrev index : ℕ → List ℕ → Option ℕ
index c [] = none
index c (d ∷ ds) =
    let later = index c ds in
    if c == d then some 0 else elim later [ none ↦ none | some n ↦ some (suc n) ]

abbrev at : {A : Type 0} → A → ℕ → List A → A
at a n [] = a
at a zero (b ∷ bs) = b
at a (suc n) (b ∷ bs) = at a n bs

abbrev nibbles : List Nibble
nibbles = x0 ∷ x1 ∷ x2 ∷ x3 ∷ x4 ∷ x5 ∷ x6 ∷ x7 ∷ x8 ∷ x9 ∷ xa ∷ xb ∷ xc ∷ xd ∷ xe ∷ xf ∷ []

abbrev value_of : Nibble → ℕ
value_of x0 = 0
value_of x1 = 1
value_of x2 = 2
value_of x3 = 3
value_of x4 = 4
value_of x5 = 5
value_of x6 = 6
value_of x7 = 7
value_of x8 = 8
value_of x9 = 9
value_of xa = 10
value_of xb = 11
value_of xc = 12
value_of xd = 13
value_of xe = 14
value_of xf = 15

abbrev pub to_number : Byte → ℕ
to_number (byte a b) = value_of a * 16 + value_of b

abbrev pub to_byte : ℕ → Byte
to_byte n = byte (at x0 (n / 16 % 16) nibbles) (at x0 (n % 16) nibbles)

abbrev alphabet64 : List ℕ
alphabet64 = codes "ABCDEFGHIJKLMNOPQRSTUVWXYZabcdefghijklmnopqrstuvwxyz0123456789-_"

abbrev digit64 : ℕ → ℕ
digit64 n = at 0 (n % 64) alphabet64

abbrev encode64 : Bytes → Text
encode64 [] = []
encode64 (a ∷ []) = let n = to_number a * 16 in digit64 (n / 64) ∷ digit64 n ∷ []
encode64 (a ∷ b ∷ []) =
    let n = (to_number a * 256 + to_number b) * 4 in
    digit64 (n / 4096) ∷ digit64 (n / 64) ∷ digit64 n ∷ []
encode64 (a ∷ b ∷ c ∷ rest) =
    let n = (to_number a * 256 + to_number b) * 256 + to_number c in
    digit64 (n / 262_144) ∷ digit64 (n / 4096) ∷ digit64 (n / 64) ∷ digit64 n ∷ encode64 rest

-- The number that the digits stand for, if all are of the alphabet.
abbrev read_digits : List ℕ → ℕ → ℕ → List ℕ → Option ℕ
read_digits alphabet base acc [] = some acc
read_digits alphabet base acc (c ∷ cs) = elim (index c alphabet) [
  | none ↦ none
  | some d ↦ read_digits alphabet base (acc * base + d) cs
]

-- The bits that no byte takes are 0.
abbrev spare : ℕ → ℕ → Option ℕ
spare unit n = if n % unit == 0 then some (n / unit) else none

abbrev decode64 : Text → Option Bytes
decode64 [] = some []
decode64 (a ∷ []) = none
decode64 (a ∷ b ∷ []) = elim (read_digits alphabet64 64 0 (a ∷ b ∷ [])) [
  | none ↦ none
  | some n ↦ elim (spare 16 n) [ none ↦ none | some m ↦ some (to_byte m ∷ []) ]
]
decode64 (a ∷ b ∷ c ∷ []) = elim (read_digits alphabet64 64 0 (a ∷ b ∷ c ∷ [])) [
  | none ↦ none
  | some n ↦ elim (spare 4 n) [ none ↦ none | some m ↦ some (to_byte (m / 256) ∷ to_byte m ∷ []) ]
]
decode64 (a ∷ b ∷ c ∷ d ∷ rest) =
    let later = decode64 rest in
    elim (read_digits alphabet64 64 0 (a ∷ b ∷ c ∷ d ∷ [])) [
      | none ↦ none
      | some n ↦ elim later [
        | none ↦ none
        | some bytes ↦ some (to_byte (n / 65_536) ∷ to_byte (n / 256) ∷ to_byte n ∷ bytes)
      ]
    ]

abbrev pub base64url : Base64
base64url = record { encode_string = encode64; decode_vec = decode64 }

abbrev alphabet58 : List ℕ
alphabet58 = codes "123456789ABCDEFGHJKLMNPQRSTUVWXYZabcdefghijkmnopqrstuvwxyz"

-- The digits of a number, the highest first; none for 0.
abbrev digits_onto : ℕ → ℕ → ℕ → List ℕ → List ℕ
digits_onto zero base n ds = ds
digits_onto (suc fuel) base zero ds = ds
digits_onto (suc fuel) base (suc n) ds = digits_onto fuel base (suc n / base) (suc n % base ∷ ds)

abbrev map_list : {A B : Type 0} → (A → B) → List A → List B
map_list f [] = []
map_list f (a ∷ rest) = f a ∷ map_list f rest

abbrev number : ℕ → Bytes → ℕ
number acc [] = acc
number acc (b ∷ bs) = number (acc * 256 + to_number b) bs

-- A zero byte in front is the digit `1`.
abbrev zeros58 : Bytes → Text
zeros58 [] = []
zeros58 (b ∷ bs) = if to_number b == 0 then b'1' ∷ zeros58 bs else []

abbrev encode58 : Bytes → Text
encode58 bytes =
    zeros58 bytes
    ++ map_list (λ d. at 0 d alphabet58) (digits_onto (length bytes * 2) 58 (number 0 bytes) [])

abbrev zeros256 : Text → Bytes
zeros256 [] = []
zeros256 (c ∷ cs) = if c == b'1' then byte x0 x0 ∷ zeros256 cs else []

abbrev decode58 : Text → Option Bytes
decode58 text = elim (read_digits alphabet58 58 0 text) [
  | none ↦ none
  | some n ↦ some (zeros256 text ++ map_list to_byte (digits_onto (length text) 256 n []))
]

abbrev decode_z : Text → Option (Unit {0} × Bytes)
decode_z [] = none
decode_z (c ∷ text) =
    if c == b'z' then elim (decode58 text) [ none ↦ none | some bytes ↦ some (tt, bytes) ] else none

-- Of the bases only base58btc, with its prefix `z`.
abbrev pub base58 : Multibase
base58 = record {
  Base = Unit {0};
  base58_btc = tt;
  decode = decode_z;
  encode = λ _ bytes. b'z' ∷ encode58 bytes;
}
