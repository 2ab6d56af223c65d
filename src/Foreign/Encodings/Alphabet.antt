-- ===== src/Foreign/Encodings/Alphabet.antt =====
-- The separator of the compact forms and the alphabet of base64url.
use infosec.Common.{ℕ, ◌≡◌, true, false, ◌==◌, arith, Bytes, Without, All-map}
use infosec.Foreign.Encodings.{Base64, IsBase64, is_url_safe}

dot_not_url_safe : (c : ℕ) → is_url_safe c ≡ true → (c == b'.') ≡ false
dot_not_url_safe c h = ground arith

pub encode-Without_dot :
    {base64 : Base64} (laws : IsBase64 base64) (bytes : Bytes)
    → Without b'.' (base64.encode_string bytes)
encode-Without_dot laws bytes = All-map dot_not_url_safe _ (laws.alphabet bytes)
