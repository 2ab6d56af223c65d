-- ===== src/Jose/Jwk/Checks.antt =====
-- jose/jwk.rs, its module `tests`.
use infosec.Common.{true, Text, codes, Outcome, ok, expect, ◌>>=◌}
use infosec.Foreign.Encodings.{Base64, Multibase}
use infosec.Jose.Jwk.{PublicKeyJwk, default, from_multibase, to_multibase}

-- The texts of the two tests, and the coordinates of their keys.
abbrev pub round_trip_text : Text
round_trip_text = codes "z6Mkr1NtupNezZtcUAMxJ79HPex6ZTR9RnGh8xfV257ZQdss"

abbrev pub round_trip_jwk : PublicKeyJwk
round_trip_jwk = record default { x = codes "q6rjRnEH_XK72jvB8FNBJtOl9_gDs6NW49cAz6p2sW4" }

abbrev pub to_jwk_text : Text
to_jwk_text = codes "z6Mkj8Jr1rg3YjVWWhg7ahEYJibqhjBgZt1pDCbT4Lv7D4HX"

abbrev pub to_jwk_jwk : PublicKeyJwk
to_jwk_jwk = record default { x = codes "RW-Q0fO2oECyLs4rZDZZo4p6b7pu7UF2eu9JBsktDco" }

-- The tests run in a build with overflow checks. Each returns what it compares with the above.
module _ (base64 : Base64) (multibase : Multibase) where
  -- The test `round_trip`
  unfoldable pub round_trip : Text → Outcome (PublicKeyJwk × Text)
  unfolding from_multibase to_multibase
  round_trip text = do
    converted_jwk ← expect (from_multibase base64 multibase true text)
    converted_multi ← expect (to_multibase base64 multibase converted_jwk)
    ok (converted_jwk, converted_multi)

  -- The test `to_jwk`
  unfoldable pub to_jwk : Text → Outcome PublicKeyJwk
  unfolding from_multibase
  to_jwk text = expect (from_multibase base64 multibase true text)
