-- ===== src/Foreign/Json.antt =====
-- JSON documents as trees, and the text form that `serde_json` prints and parses.
use infosec.Common.{◌≡◌, Bool, true, false, Option, some, Bytes, Text}

mutual
  pub data Json : Type 0 where
    null : Json
    boolean : Bool → Json
    number : Text → Json
    string : Text → Json
    array : Elements → Json
    object : Members → Json

  pub data Elements : Type 0 where
    no_elements : Elements
    element : Json → Elements → Elements

  pub data Members : Type 0 where
    no_members : Members
    member : Text → Json → Members → Members

abbrev pub is_null : Json → Bool
is_null null = true
is_null _ = false

-- The documents as text. A document whose keys are strings is always printed.
pub record JsonText : Type 0 where
  pub print : Json → Bytes
  pub parse : Bytes → Option Json

pub record IsJsonText (text : JsonText) : Type 0 where
  pub parse-print : (j : Json) → text.parse (text.print j) ≡ some j
