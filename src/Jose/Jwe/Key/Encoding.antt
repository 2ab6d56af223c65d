-- ===== src/Jose/Jwe/Key/Encoding.antt =====
-- Public keys and byte strings.
use mathlib.Core.Path.{subst}
use infosec.Common.{
  ap, sym, ◌∙◌, [], ==_iff, Bool-cases, ok-injective, ◌≡◌, refl, ◌↔◌, inl, inr, Option, none, some,
  ◌∷◌, ◌++◌, Bytes, Byte,
}
use infosec.Common.{
  length, take, drop, length-append, length-take, length-drop, take-append_of, drop-append_of,
  take-append-drop, take-all, ◌==◌, arith,
}
use infosec.Common.{ok}
use infosec.Jose.Jwe.Key.{PublicKey, tag_pubkey_full, slice, to_vec, try_from}

-- The length of an optional coordinate, where there is one.
abbrev pub IsCoordinate : Option Bytes → Type 0
IsCoordinate none = Unit
IsCoordinate (some y) = length y ≡ 32

-- The arrays of a key have 32 bytes.
pub record IsKey (key : PublicKey) : Type 0 where
  pub x : length key.x ≡ 32
  pub y : IsCoordinate key.y

pub slice-x : (b : Byte) (x y : Bytes) → length x ≡ 32 → slice 1 33 (b ∷ (x ++ y)) ≡ x
slice-x b x y h = take-append_of 32 x y h

pub slice-y :
    (b : Byte) (x y : Bytes) → length x ≡ 32 → length y ≡ 32 → slice 33 65 (b ∷ (x ++ y)) ≡ y
slice-y b x y h k = rw (drop-append_of 32 x y h) (take-all 32 y (omega arith))

-- The bytes stand for the key: the X coordinate alone, or both behind a byte that may be any.
abbrev pub IsEncoding : Bytes → Bytes → Option Bytes → Type 0
IsEncoding val x none = val ≡ x
IsEncoding val x (some y) = (b : Byte) × (val ≡ b ∷ (x ++ y))

pub key_of_32 : (val : Bytes) → length val ≡ 32 → try_from val ≡ ok (record { x = val; y = none })
unfolding try_from
key_of_32 val h = rw (h, take-all 32 val (omega arith))

pub key_of_65 :
    (b : Byte) (x y : Bytes)
    → length x ≡ 32
    → length y ≡ 32
    → try_from (b ∷ (x ++ y)) ≡ ok (record { x = x; y = some y })
unfolding try_from
key_of_65 b x y h k =
    let n : length (x ++ y) ≡ 64 = omega (arith, length-append {0} x y) in
    rw (n, slice-x b x y h, slice-y b x y h k)

try_from_encoding :
    (val x : Bytes) (y : Option Bytes)
    → length x ≡ 32
    → IsCoordinate y
    → IsEncoding val x y
    → try_from val ≡ ok (record { x = x; y = y })
try_from_encoding val x none h k e = rw e (key_of_32 x h)
try_from_encoding val x (some y) h k (b, e) = rw e (key_of_65 b x y h k)

abbrev IsRead : Bytes → PublicKey → Type 0
IsRead val key = IsKey key × IsEncoding val key.x key.y

IsRead-32 :
    (val : Bytes) (key : PublicKey) → length val ≡ 32 → try_from val ≡ ok key → IsRead val key
IsRead-32 val key n h =
    subst (IsRead val) (ok-injective (record { x = val; y = none }) key (sym (key_of_32 val n) ∙ h))
      (record { x = n; y = tt }, refl)

IsRead-65 :
    (b : Byte) (rest : Bytes) (key : PublicKey)
    → length rest ≡ 64
    → try_from (b ∷ rest) ≡ ok key
    → IsRead (b ∷ rest) key
IsRead-65 b rest key n h =
    let x = take 32 rest in
    let y = drop 32 rest in
    let nx : length x ≡ 32 = omega (arith, length-take {0} 32 rest) in
    let ny : length y ≡ 32 = omega (arith, length-drop {0} 32 rest) in
    let e : x ++ y ≡ rest = take-append-drop 32 rest in
    let read : ok (record { x = x; y = some y }) ≡ ok key = sym (key_of_65 b x y nx ny) ∙ rw e h in
    subst (IsRead (b ∷ rest)) (ok-injective _ key read)
      (record { x = nx; y = ny }, (b, ap (λ r. b ∷ r) (sym e)))

IsRead-try_from : (val : Bytes) (key : PublicKey) → try_from val ≡ ok key → IsRead val key
unfolding try_from
IsRead-try_from [] key h = cc
IsRead-try_from (b ∷ rest) key h = elim (Bool-cases (length (b ∷ rest) == 32)) [
  | inl e ↦ IsRead-32 (b ∷ rest) key ((==_iff _ _).0 e) h
  | inr e ↦ elim (Bool-cases (length (b ∷ rest) == 65)) [
    | inl f ↦ IsRead-65 b rest key (omega (arith, (==_iff (length (b ∷ rest)) 65).0 f)) h
    | inr f ↦ cc (rw (e, f) at h)
  ]
]

-- A byte string is read as a key exactly if it is the X coordinate of one without Y coordinate, or
-- has both coordinates of the key behind a first byte, whatever that byte is.
pub try_from-IsRead :
    (val : Bytes) (key : PublicKey)
    → (try_from val ≡ ok key) ↔ (IsKey key × IsEncoding val key.x key.y)
try_from-IsRead val key =
    (IsRead-try_from val key, λ (k, e). try_from_encoding val key.x key.y k.x k.y e)

IsEncoding-to_vec :
    (x : Bytes) (y : Option Bytes) → IsEncoding (to_vec (record { x = x; y = y })) x y
unfolding to_vec
IsEncoding-to_vec x none = refl
IsEncoding-to_vec x (some y) = (tag_pubkey_full, refl)

-- A key whose coordinates have 32 bytes, written as bytes, is read back.
pub try_from-to_vec : (key : PublicKey) → IsKey key → try_from (to_vec key) ≡ ok key
try_from-to_vec key k =
    try_from_encoding (to_vec key) key.x key.y k.x k.y (IsEncoding-to_vec key.x key.y)
