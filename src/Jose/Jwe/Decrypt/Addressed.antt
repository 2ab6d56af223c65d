-- ===== src/Jose/Jwe/Decrypt/Addressed.antt =====
-- The entry of a JWE that a receiver takes, and the public key of the sender in it.
use mathlib.Core.Option.{some-injective}
use infosec.Common.{
  ◌≡◌, ◌≢◌, sym, ap, ◌∙◌, ◌↔◌, inl, inr, true, Bool-cases, Option, none, some, List, [], ◌∷◌, ◌++◌,
  All, Bytes, Text, Text-discrete, holds_iff,
}
use infosec.Common.{ok, or_err, ◌>>=◌, >>=-eq-ok, or_err-eq-ok, ok-injective}
use infosec.Jose.Jwk.{PublicKeyJwk}
use infosec.Jose.Jwe.Key.{PublicKey, tag_pubkey_full, try_from}
use infosec.Jose.Jwe.Key.Encoding.{IsKey, IsEncoding, try_from-IsRead}
use infosec.Jose.Jwe.Data.{KeyEncryption, Recipients, one, many}
use infosec.Jose.Jwe.Libraries.{Libraries}
use infosec.Jose.Jwe.Decrypt.{has_kid, find, find_recipient, sender_key, add_y}

-- The first entry of the list with the key ID.
pub record IsFirst (key_id : Text) (list : List KeyEncryption) (entry : KeyEncryption)
    : Type 0 where
  pub before : List KeyEncryption
  pub after : List KeyEncryption
  pub listed : list ≡ before ++ (entry ∷ after)
  pub named : entry.header.kid ≡ some key_id
  pub others : All (λ (e : KeyEncryption). e.header.kid ≢ some key_id) before

-- The entry for a receiver: the only one, whatever its key ID, or the first with the receiver's.
abbrev pub IsEntry : Text → Recipients → KeyEncryption → Type 0
IsEntry key_id (one e) entry = e ≡ entry
IsEntry key_id (many list) entry = IsFirst key_id list entry

has_kid_iff :
    (key_id : Text) (kid : Option Text) → (has_kid key_id kid ≡ true) ↔ (kid ≡ some key_id)
has_kid_iff key_id none = (λ h. cc, λ h. cc)
has_kid_iff key_id (some kid) =
    let d = holds_iff (Text-discrete kid key_id) in
    (λ h. ap some (d.0 h), λ e. d.1 (some-injective kid key_id e))

IsFirst-find :
    (key_id : Text) (list : List KeyEncryption) (entry : KeyEncryption)
    → find key_id list ≡ some entry
    → IsFirst key_id list entry
unfolding find
IsFirst-find key_id [] entry h = cc
IsFirst-find key_id (r ∷ rs) entry h = elim (Bool-cases (has_kid key_id r.header.kid)) [
  | inl y ↦
      let e = some-injective r entry (rw y at h) in
      record {
        before = [];
        after = rs;
        listed = ap (λ x. x ∷ rs) e;
        named =
            ap (λ (x : KeyEncryption). x.header.kid) (sym e)
            ∙ (has_kid_iff key_id r.header.kid).0 y;
        others = tt;
      }
  | inr n ↦
      let f = IsFirst-find key_id rs entry (rw n at h) in
      record {
        before = r ∷ f.before;
        after = f.after;
        listed = ap (λ x. r ∷ x) f.listed;
        named = f.named;
        others = (λ e. let y = (has_kid_iff key_id r.header.kid).1 e in cc, f.others);
      }
]

find_first :
    (key_id : Text) (before after : List KeyEncryption) (entry : KeyEncryption)
    → entry.header.kid ≡ some key_id
    → All (λ (e : KeyEncryption). e.header.kid ≢ some key_id) before
    → find key_id (before ++ (entry ∷ after)) ≡ some entry
unfolding find
find_first key_id [] after entry n others = rw ((has_kid_iff key_id entry.header.kid).1 n)
find_first key_id (r ∷ rs) after entry n others = elim (Bool-cases (has_kid key_id r.header.kid)) [
  | inl y ↦ absurd (others.0 ((has_kid_iff key_id r.header.kid).0 y))
  | inr f ↦ rw f (find_first key_id rs after entry n others.1)
]

pub find_recipient-eq-ok :
    (key_id : Text) (recipients : Recipients) (entry : KeyEncryption)
    → (find_recipient key_id recipients ≡ ok entry) ↔ IsEntry key_id recipients entry
unfolding find_recipient
find_recipient-eq-ok key_id (one e) entry = (λ h. ok-injective e entry h, λ p. ap ok p)
find_recipient-eq-ok key_id (many list) entry = (
  λ h. IsFirst-find key_id list entry (or_err-eq-ok _ _ h),
  λ f. rw (f.listed, find_first key_id f.before f.after entry f.named f.others),
)

module _ (lib : Libraries) where
  open lib use {base64}

  -- The bytes of the key, for an X coordinate and the Y coordinate of the JWK.
  abbrev pub IsPoint : Bytes → Option Text → PublicKey → Type 0
  IsPoint x none sender = IsKey sender × IsEncoding x sender.x sender.y
  IsPoint x (some text) sender =
      (y : Bytes) × (base64.decode_vec text ≡ some y)
      × (IsKey sender × IsEncoding (tag_pubkey_full ∷ (x ++ y)) sender.x sender.y)

  -- The public key that the coordinates of a JWK stand for.
  abbrev pub IsSender : PublicKeyJwk → PublicKey → Type 0
  IsSender epk sender = (x : Bytes) × (base64.decode_vec epk.x ≡ some x) × IsPoint x epk.y sender

  add_y-IsPoint :
      (x : Bytes) (y : Option Text) (sender : PublicKey)
      → ((do bytes ← add_y lib x y; try_from bytes) ≡ ok sender) ↔ IsPoint x y sender
  add_y-IsPoint x none sender = try_from-IsRead x sender
  add_y-IsPoint x (some text) sender = (
    λ h.
        let (bytes, e₁, h₁) = >>=-eq-ok (add_y lib x (some text)) _ h in
        let (y, e₂, h₂) = >>=-eq-ok (or_err (base64.decode_vec text) _) _ e₁ in
        (
          y,
          or_err-eq-ok _ _ e₂,
          (try_from-IsRead (tag_pubkey_full ∷ (x ++ y)) sender).0
              (ap try_from (ok-injective _ _ h₂) ∙ h₁),
        ),
    λ (y, e, r). rw e ((try_from-IsRead (tag_pubkey_full ∷ (x ++ y)) sender).1 r),
  )

  pub sender_key-eq-ok :
      (epk : PublicKeyJwk) (sender : PublicKey)
      → (sender_key lib epk ≡ ok sender) ↔ IsSender epk sender
  unfolding sender_key
  sender_key-eq-ok epk sender = (
    λ h.
        let (x, e, h₁) = >>=-eq-ok _ _ h in
        (x, or_err-eq-ok _ _ e, (add_y-IsPoint x epk.y sender).0 h₁),
    λ (x, e, p). rw e ((add_y-IsPoint x epk.y sender).1 p),
  )
