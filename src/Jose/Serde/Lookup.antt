-- ===== src/Jose/Serde/Lookup.antt =====
-- What is found again of what was written.
use infosec.Common.{
  ◌≡◌, refl, false, Option, none, some, List, [], ◌∷◌, ◌++◌, Text, if◌then◌else◌, arith,
}
use infosec.Foreign.Json.{Json, Members, is_null}
use infosec.Jose.Serde.{same, get_all, opt_value, nullable, unless_none, write_list, read_elements}

-- The value of an `Option`, where there is one.
abbrev pub listed : {A : Type 0} → (A → Json) → Option A → List Json
listed write none = []
listed write (some a) = write a ∷ []

module _ {A : Type 0} (write : A → Json) where
  pub get_all-unless_none :
      (name n : Text) (o : Option A) (rest : Members)
      → get_all name (unless_none n write o rest)
        ≡ (if same n name then listed write o else []) ++ get_all name rest
  get_all-unless_none name n none rest = ground arith
  get_all-unless_none name n (some a) rest = ground arith

  -- The reader reads back what the writer wrote.
  module _ (read : Json → Option A) where
    pub record Reads : Type 0 where
      pub back : (a : A) → read (write a) ≡ some a
      pub real : (a : A) → is_null (write a) ≡ false

    pub opt_value-listed : Reads → (o : Option A) → opt_value read (listed write o ++ []) ≡ some o
    opt_value-listed reads none = refl
    opt_value-listed reads (some a) = rw (reads.real a, reads.back a) refl

    pub opt_value-nullable :
        Reads → (o : Option A) → opt_value read (nullable write o ∷ []) ≡ some o
    opt_value-nullable reads none = refl
    opt_value-nullable reads (some a) = rw (reads.real a, reads.back a) refl

    pub read_elements-write_list :
        ((a : A) → read (write a) ≡ some a)
        → (list : List A) → read_elements read (write_list write list) ≡ some list
    read_elements-write_list back [] = refl
    read_elements-write_list back (a ∷ list) = rw (back a, read_elements-write_list back list) refl
