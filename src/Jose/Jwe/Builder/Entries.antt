-- ===== src/Jose/Jwe/Builder/Entries.antt =====
-- jose/jwe/encrypt.rs: the key IDs of the entries that `encrypt_each` makes.
use mathlib.Core.Path.{subst}
use mathlib.Core.Option.{some-injective}
use infosec.Common.{◌≡◌, sym, inl, inr, Option, none, some, List, [], ◌∷◌, Text}
use infosec.Common.{Bool-cases, Text-discrete, holds, if◌then◌else◌}
use infosec.Common.{ok}
use infosec.Jose.Jwe.Data.{KeyEncryption}
use infosec.Jose.Jwe.Libraries.{Libraries}
use infosec.Jose.Jwe.Random.{Random, >>=-eq-ok, pure-eq-ok}
use infosec.Jose.Jwe.Encrypt.{Recipient}
use infosec.Jose.Jwe.Builder.{encrypt_each}
use infosec.Jose.Jwe.Decrypt.{find}

-- The first recipient of the builder with a key ID.
abbrev pub recipient_of : Text → List Recipient → Option Recipient
recipient_of key_id [] = none
recipient_of key_id (r ∷ rs) =
    if holds (Text-discrete r.key_id key_id) then some r else recipient_of key_id rs

module _ (lib : Libraries) where
  open lib use {rng}

  module _ (f : Recipient → Random rng.State KeyEncryption)
      (named : (r : Recipient) (ke : KeyEncryption) (s t : rng.State)
        → f r s ≡ ok (ke, t)
        → ke.header.kid ≡ some r.key_id) where
    encrypt_each-cons :
        (q : Recipient) (qs : List Recipient) (list : List KeyEncryption) (s t : rng.State)
        → encrypt_each lib f (q ∷ qs) s ≡ ok (list, t)
        → (ke : KeyEncryption) × (s₁ : rng.State) × (rest : List KeyEncryption) × (s₂ : rng.State)
          × (f q s ≡ ok (ke, s₁))
          × (encrypt_each lib f qs s₁ ≡ ok (rest, s₂))
          × (list ≡ ke ∷ rest)
    unfolding encrypt_each
    encrypt_each-cons q qs list s t h =
        let (ke, s₁, e₁, h₁) = >>=-eq-ok (f q) _ s t list h in
        let (rest, s₂, e₂, h₂) = >>=-eq-ok (encrypt_each lib f qs) _ s₁ t list h₁ in
        (ke, s₁, rest, s₂, e₁, e₂, sym (pure-eq-ok (ke ∷ rest) list s₂ t h₂).0)

    find_entry :
        (rs : List Recipient) (key_id : Text) (r q : Recipient) (ke : KeyEncryption)
        (list rest : List KeyEncryption) (s s₁ : rng.State)
        → list ≡ ke ∷ rest
        → f q s ≡ ok (ke, s₁)
        → recipient_of key_id (q ∷ rs) ≡ some r
        → ((recipient_of key_id rs ≡ some r)
            → (ke' : KeyEncryption) × (s' : rng.State) × (t' : rng.State) × (find key_id rest
                ≡ some ke')
              × (f r s' ≡ ok (ke', t')))
        → (ke' : KeyEncryption) × (s' : rng.State) × (t' : rng.State) × (find key_id list
            ≡ some ke')
          × (f r s' ≡ ok (ke', t'))
    unfolding find
    find_entry rs key_id r q ke list rest s s₁ l e₁ e later =
        let k = named q ke s s₁ e₁ in
        elim (Bool-cases (holds (Text-discrete q.key_id key_id))) [
          | inl y ↦
              let same = some-injective q r (rw y at e) in
              (ke, s, s₁, rw (l, k, y), subst (λ r'. f r' s ≡ ok (ke, s₁)) same e₁)
          | inr n ↦
              let (ke', s', t', found, made) = later (rw n at e) in
              (ke', s', t', rw (l, k, n) found, made)
        ]

    -- The entry for the first recipient with a key ID is the first entry with it.
    pub find-encrypt_each :
        (rs : List Recipient) (list : List KeyEncryption) (s t : rng.State) (key_id : Text)
        (r : Recipient)
        → encrypt_each lib f rs s ≡ ok (list, t)
        → recipient_of key_id rs ≡ some r
        → (ke : KeyEncryption) × (s' : rng.State) × (t' : rng.State) × (find key_id list ≡ some ke)
          × (f r s' ≡ ok (ke, t'))
    find-encrypt_each [] list s t key_id r h e = cc
    find-encrypt_each (q ∷ qs) list s t key_id r h e =
        let (ke, s₁, rest, s₂, e₁, e₂, l) = encrypt_each-cons q qs list s t h in
        find_entry qs key_id r q ke list rest s s₁ l e₁ e
          (find-encrypt_each qs rest s₁ s₂ key_id r e₂)
