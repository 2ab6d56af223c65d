-- ===== src/Examples/Encodings.antt =====
-- Small encodings that meet the laws: hexadecimal digits for base64url, a multibase with one base,
-- and a format that writes one value.
use infosec.Common.{ℕ, ◌≡◌, refl, true, Option, none, some, List, [], ◌∷◌, arith, ap, All}
use infosec.Common.{
  Nibble, x0, x1, x2, x3, x4, x5, x6, x7, x8, x9, xa, xb, xc, xd, xe, xf, byte, Bytes,
}
use infosec.Common.{Bytes-discrete, Text, ◌==◌, holds, holds_iff, if◌then◌else◌}
use infosec.Foreign.Encodings.{
  Codec, IsRoundTrip, Base64, IsBase64, is_url_safe, Multibase, IsMultibase,
}

abbrev digit : Nibble → ℕ
digit x0 = b'0'
digit x1 = b'1'
digit x2 = b'2'
digit x3 = b'3'
digit x4 = b'4'
digit x5 = b'5'
digit x6 = b'6'
digit x7 = b'7'
digit x8 = b'8'
digit x9 = b'9'
digit xa = b'a'
digit xb = b'b'
digit xc = b'c'
digit xd = b'd'
digit xe = b'e'
digit xf = b'f'

abbrev search_digit : ℕ → List Nibble → Option Nibble
search_digit c [] = none
search_digit c (n ∷ ns) = if digit n == c then some n else search_digit c ns

abbrev nibble : ℕ → Option Nibble
nibble c =
    search_digit c
      (x0 ∷ x1 ∷ x2 ∷ x3 ∷ x4 ∷ x5 ∷ x6 ∷ x7 ∷ x8 ∷ x9 ∷ xa ∷ xb ∷ xc ∷ xd ∷ xe ∷ xf ∷ [])

abbrev hex : Bytes → Text
hex [] = []
hex (byte a b ∷ bytes) = digit a ∷ digit b ∷ hex bytes

abbrev with_byte : Option Nibble → Option Nibble → Option Bytes → Option Bytes
with_byte (some a) (some b) (some bytes) = some (byte a b ∷ bytes)
with_byte _ _ _ = none

abbrev unhex : Text → Option Bytes
unhex [] = some []
unhex (c ∷ []) = none
unhex (c ∷ d ∷ s) = with_byte (nibble c) (nibble d) (unhex s)

nibble-digit : (n : Nibble) → nibble (digit n) ≡ some n
nibble-digit x0 = refl
nibble-digit _ = refl

digit_url_safe : (n : Nibble) → is_url_safe (digit n) ≡ true
digit_url_safe x0 = refl
digit_url_safe _ = refl

unhex-hex : (bytes : Bytes) → unhex (hex bytes) ≡ some bytes
unhex-hex [] = refl
unhex-hex (byte a b ∷ bytes) = rw (nibble-digit a, nibble-digit b, unhex-hex bytes)

hex_url_safe : (bytes : Bytes) → All (λ c. is_url_safe c ≡ true) (hex bytes)
hex_url_safe [] = tt
hex_url_safe (byte a b ∷ bytes) = (digit_url_safe a, (digit_url_safe b, hex_url_safe bytes))

abbrev pub hex_base64 : Base64
hex_base64 = record { encode_string = hex; decode_vec = unhex }

pub hex-IsBase64 : IsBase64 hex_base64
hex-IsBase64 = record { decode-encode = unhex-hex; alphabet = hex_url_safe }

abbrev with_base : Option Bytes → Option (Unit {0} × Bytes)
with_base none = none
with_base (some bytes) = some (tt, bytes)

-- The only base is marked by `z`.
abbrev unmark : Text → Option (Unit {0} × Bytes)
unmark [] = none
unmark (c ∷ s) = with_base (unhex s)

abbrev pub hex_multibase : Multibase
hex_multibase = record {
  Base = Unit {0};
  base58_btc = tt;
  decode = unmark;
  encode = λ _ bytes. b'z' ∷ hex bytes;
}

pub hex-IsMultibase : IsMultibase hex_multibase
hex-IsMultibase = record { decode-encode = λ _ bytes. ap with_base (unhex-hex bytes) }

-- A format that writes and reads one value, as one byte.
abbrev pub mark : Bytes
mark = byte x0 x1 ∷ []

module _ {T : Type 0} (dec : Discrete T) (value : T) where
  abbrev pub codec_of : Codec T
  codec_of = record {
    to_vec = λ t. if holds (dec t value) then some mark else none;
    from_slice = λ bytes. if holds (Bytes-discrete bytes mark) then some value else none;
  }

  read_back :
      (t : T) (bytes : Bytes) → codec_of.to_vec t ≡ some bytes → codec_of.from_slice bytes ≡ some t
  read_back t bytes h =
      ground (arith, holds_iff (dec t value), holds_iff (Bytes-discrete bytes mark))

  pub codec_of-IsRoundTrip : IsRoundTrip codec_of
  codec_of-IsRoundTrip = record { from_slice-to_vec = read_back }

-- Byte strings as their own format.
abbrev pub raw : Codec Bytes
raw = record { to_vec = some; from_slice = some }

pub raw-IsRoundTrip : IsRoundTrip raw
raw-IsRoundTrip = record { from_slice-to_vec = λ t bytes h. cc }
