-- ===== src/Examples/JsonText.antt =====
-- A text form of JSON documents in prefix notation, read back from its end.
use infosec.Common.{
  ℕ, zero, suc, ◌≡◌, refl, true, false, Option, none, some, List, [], ◌∷◌, Bytes, Text,
}
use infosec.Common.{byte, Nibble, x0, x1, x2, x3, x4, x5, x6, x7, x8, x9, xa, xb, xc, xd}
use infosec.Foreign.Json.{
  Json, null, boolean, number, string, array, object, Elements, no_elements, element, Members,
  no_members, member, JsonText, IsJsonText,
}

pub data Item : Type 0 where
  text : Text → Item
  value : Json → Item
  values : Elements → Item
  fields : Members → Item

abbrev pub token : Nibble → List Item → List Item
token x0 s = text [] ∷ s
token x1 (text t ∷ s) = text (0 ∷ t) ∷ s
token x2 (text (c ∷ t) ∷ s) = text (suc c ∷ t) ∷ s
token x3 s = value null ∷ s
token x4 s = value (boolean true) ∷ s
token x5 s = value (boolean false) ∷ s
token x6 (text t ∷ s) = value (number t) ∷ s
token x7 (text t ∷ s) = value (string t) ∷ s
token x8 (values l ∷ s) = value (array l) ∷ s
token x9 (fields m ∷ s) = value (object m) ∷ s
token xa s = values no_elements ∷ s
token xb (value j ∷ values l ∷ s) = values (element j l) ∷ s
token xc s = fields no_members ∷ s
token xd (text t ∷ value j ∷ fields m ∷ s) = fields (member t j m) ∷ s
token _ s = []

abbrev pub evaluate : Bytes → List Item
evaluate [] = []
evaluate (byte _ n ∷ rest) = token n (evaluate rest)

abbrev pub put_code : ℕ → Bytes → Bytes
put_code zero rest = byte x0 x1 ∷ rest
put_code (suc n) rest = byte x0 x2 ∷ put_code n rest

abbrev pub put_text : Text → Bytes → Bytes
put_text [] rest = byte x0 x0 ∷ rest
put_text (c ∷ t) rest = put_code c (put_text t rest)

unfoldable mutual
  pub put : Json → Bytes → Bytes
  put null rest = byte x0 x3 ∷ rest
  put (boolean true) rest = byte x0 x4 ∷ rest
  put (boolean false) rest = byte x0 x5 ∷ rest
  put (number t) rest = byte x0 x6 ∷ put_text t rest
  put (string t) rest = byte x0 x7 ∷ put_text t rest
  put (array l) rest = byte x0 x8 ∷ put_elements l rest
  put (object m) rest = byte x0 x9 ∷ put_members m rest

  put_elements : Elements → Bytes → Bytes
  put_elements no_elements rest = byte x0 xa ∷ rest
  put_elements (element j l) rest = byte x0 xb ∷ put j (put_elements l rest)

  put_members : Members → Bytes → Bytes
  put_members no_members rest = byte x0 xc ∷ rest
  put_members (member t j m) rest = byte x0 xd ∷ put_text t (put j (put_members m rest))

evaluate-put_code :
    (c : ℕ) (t : Text) (rest : Bytes) (s : List Item)
    → evaluate rest ≡ text t ∷ s
    → evaluate (put_code c rest) ≡ text (c ∷ t) ∷ s
evaluate-put_code zero t rest s h = rw h refl
evaluate-put_code (suc c) t rest s h = rw (evaluate-put_code c t rest s h) refl

evaluate-put_text : (t : Text) (rest : Bytes) → evaluate (put_text t rest) ≡ text t ∷ evaluate rest
evaluate-put_text [] rest = refl
evaluate-put_text (c ∷ t) rest =
    evaluate-put_code c t (put_text t rest) (evaluate rest) (evaluate-put_text t rest)

mutual
  unfolding put

  evaluate-put : (j : Json) (rest : Bytes) → evaluate (put j rest) ≡ value j ∷ evaluate rest
  evaluate-put null rest = refl
  evaluate-put (boolean true) rest = refl
  evaluate-put (boolean false) rest = refl
  evaluate-put (number t) rest = rw (evaluate-put_text t rest) refl
  evaluate-put (string t) rest = rw (evaluate-put_text t rest) refl
  evaluate-put (array l) rest = rw (evaluate-put_elements l rest) refl
  evaluate-put (object m) rest = rw (evaluate-put_members m rest) refl

  evaluate-put_elements :
      (l : Elements) (rest : Bytes) → evaluate (put_elements l rest) ≡ values l ∷ evaluate rest
  evaluate-put_elements no_elements rest = refl
  evaluate-put_elements (element j l) rest =
      rw (evaluate-put j (put_elements l rest), evaluate-put_elements l rest) refl

  evaluate-put_members :
      (m : Members) (rest : Bytes) → evaluate (put_members m rest) ≡ fields m ∷ evaluate rest
  evaluate-put_members no_members rest = refl
  evaluate-put_members (member t j m) rest =
      rw
        (
          evaluate-put_text t (put j (put_members m rest)),
          evaluate-put j (put_members m rest),
          evaluate-put_members m rest,
        )
        refl

abbrev pub only_value : List Item → Option Json
only_value (value j ∷ []) = some j
only_value _ = none

abbrev pub prefix_text : JsonText
prefix_text = record { print = λ j. put j []; parse = λ bytes. only_value (evaluate bytes) }

pub prefix-IsJsonText : IsJsonText prefix_text
prefix-IsJsonText = record { parse-print = λ j. rw (evaluate-put j []) refl }
