-- ===== src/Jose/Serde.antt =====
-- What `#[derive(Serialize, Deserialize)]` and its attributes `rename`, `alias`, `flatten` and
-- `skip_serializing_if` say of a record. A struct is written as an object and read from an object
-- or, but for one with a flattened field, from the array of its fields; a variant without data is
-- written as its name and read from the name or from an object with one member of that name.
pub mod Lookup
pub mod Keys
pub mod Signed
pub mod Encrypted
pub mod Delivered
pub mod Sent
use mathlib.Core.Option
use infosec.Common.{
  ℕ, Bool, true, false, ◌&&◌, ◌||◌, Option, none, some, List, [], ◌∷◌, Text, codes, ◌==◌,
  if◌then◌else◌,
}
use infosec.Foreign.Json.{
  Json, null, boolean, number, string, array, object, Elements, no_elements, element, Members,
  no_members, member, is_null,
}

infixl 5 ◌>>=◌
abbrev pub ◌>>=◌ : {A B : Type 0} → Option A → (A → Option B) → Option B
none >>= next = none
some a >>= next = next a

abbrev pub same : Text → Text → Bool
same [] [] = true
same [] (_ ∷ _) = false
same (_ ∷ _) [] = false
same (a ∷ s) (b ∷ t) = (a == b) && same s t

-- The values of all members of a name.
abbrev pub get_all : Text → Members → List Json
get_all name no_members = []
get_all name (member n value rest) =
    let found = get_all name rest in if same n name then value ∷ found else found

-- A field: a missing member is an error, and so is one that stands there twice.
abbrev pub one_value : {A : Type 0} → (Json → Option A) → List Json → Option A
one_value read (value ∷ []) = read value
one_value read _ = none

abbrev pub required : {A : Type 0} → Text → (Json → Option A) → Members → Option A
required name read ms = one_value read (get_all name ms)

-- A field that is an `Option`: a missing member is `None`, and so is `null`.
abbrev pub opt_value : {A : Type 0} → (Json → Option A) → List Json → Option (Option A)
opt_value read [] = some none
opt_value read (value ∷ []) = if is_null value then some none else Option.map some (read value)
opt_value read _ = none

abbrev pub optional : {A : Type 0} → Text → (Json → Option A) → Members → Option (Option A)
optional name read ms = opt_value read (get_all name ms)

-- The value of an `Option` that is always written.
abbrev pub nullable : {A : Type 0} → (A → Json) → Option A → Json
nullable write none = null
nullable write (some a) = write a

-- `#[serde(skip_serializing_if = "Option::is_none")]`
abbrev pub unless_none : {A : Type 0} → Text → (A → Json) → Option A → Members → Members
unless_none name write none rest = rest
unless_none name write (some a) rest = member name (write a) rest

-- A flattened enum: the first member that has the name of one of two variants.
abbrev pub first_of :
    {A : Type 0} → Text → (Json → Option A) → Text → (Json → Option A) → Members → Option A
first_of p read_p q read_q no_members = none
first_of p read_p q read_q (member n value rest) =
    let later = first_of p read_p q read_q rest in
    if same n p then read_p value else if same n q then read_q value else later

abbrev pub text_of : Json → Option Text
text_of (string t) = some t
text_of _ = none

-- Where a reader gets its values: from the parser, or from what a struct with a flattened field
-- has stored of its other members.
pub data Origin : Type 0 where
  parsed stored : Origin

-- `()`, which a variant without data has in the form of an object. A stored value may also be `{}`.
abbrev pub is_unit : Origin → Json → Bool
is_unit _ null = true
is_unit stored (object no_members) = true
is_unit _ _ = false

-- Variants without data, by their names.
abbrev pub variant : {A : Type 0} → List (Text × A) → Text → Option A
variant [] t = none
variant ((name, a) ∷ rest) t = let later = variant rest t in if same t name then some a else later

abbrev pub read_variant : {A : Type 0} → Origin → List (Text × A) → Json → Option A
read_variant o names (string t) = variant names t
read_variant o names (object (member n value no_members)) =
    if is_unit o value then variant names n else none
read_variant _ _ _ = none

-- A struct with a flattened field.
abbrev pub members_of : Json → Option Members
members_of (object ms) = some ms
members_of _ = none

-- A struct: from its members, or from the array of its fields.
abbrev pub read_struct :
    {A : Type 0} → (Members → Option A) → (Elements → Option A) → Json → Option A
read_struct by_name in_order (object ms) = by_name ms
read_struct by_name in_order (array list) = in_order list
read_struct _ _ _ = none

-- In an array every field stands, an `Option` too.
abbrev pub next : {A : Type 0} → (Json → Option A) → Elements → Option (A × Elements)
next read no_elements = none
next read (element j rest) = do a ← read j; some (a, rest)

abbrev pub read_option : {A : Type 0} → (Json → Option A) → Json → Option (Option A)
read_option read j = opt_value read (j ∷ [])

-- Nothing stands behind the last field.
abbrev pub ended : {A : Type 0} → A → Elements → Option A
ended a no_elements = some a
ended _ (element _ _) = none

abbrev pub write_list : {A : Type 0} → (A → Json) → List A → Elements
write_list write [] = no_elements
write_list write (a ∷ rest) = element (write a) (write_list write rest)

abbrev pub read_elements : {A : Type 0} → (Json → Option A) → Elements → Option (List A)
read_elements read no_elements = some []
read_elements read (element j rest) = do a ← read j; list ← read_elements read rest; some (a ∷ list)

abbrev pub read_list : {A : Type 0} → (Json → Option A) → Json → Option (List A)
read_list read (array list) = read_elements read list
read_list read _ = none
