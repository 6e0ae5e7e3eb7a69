-- ===== src/Json.antt =====
-- JSON values as encoding/json (Go's standard library) reads and writes them: the values that the
-- program exchanges, and the decoding of an object's members into the fields of a struct. A name in
-- another case, which Go accepts too, does not occur in what the program writes.
use cali_go_stack.Base.{ℕ, String, Bool, false, Option, none, some, List, [], ◌==◌, if◌then◌else◌}
use cali_go_stack.Queue.Chan.{Bytes}

mutual
  pub data Json : Type 0 where
    null : Json
    bool : Bool → Json
    number : ℕ → Json
    text : String → Json
    texts : List String → Json
    object : Members → Json

  pub data Members : Type 0 where
    end : Members
    member : String → Json → Members → Members

-- The member of that name; of two the last.
unfoldable pub field : String → Members → Option Json
field k end = none
field k (member n v ms) = elim (field k ms) [
  | none ↦ if n == k then some v else none
  | some w ↦ some w
]

-- What json.Unmarshal does with a value for a field of each type: an absent member and a null leave
-- the zero value, a value of another type is an error.
abbrev as_text : Option Json → Option String
as_text none = some ""
as_text (some null) = some ""
as_text (some (text t)) = some t
as_text (some _) = none

abbrev as_number : Option Json → Option ℕ
as_number none = some 0
as_number (some null) = some 0
as_number (some (number n)) = some n
as_number (some _) = none

abbrev as_bool : Option Json → Option Bool
as_bool none = some false
as_bool (some null) = some false
as_bool (some (bool b)) = some b
as_bool (some _) = none

abbrev as_texts : Option Json → Option (List String)
as_texts none = some []
as_texts (some null) = some []
as_texts (some (texts ts)) = some ts
as_texts (some _) = none

-- The members that a struct is read from.
abbrev pub members : Json → Option Members
members null = some end
members (object ms) = some ms
members _ = none

abbrev pub text_field : String → Members → Option String
text_field k ms = as_text (field k ms)

abbrev pub number_field : String → Members → Option ℕ
number_field k ms = as_number (field k ms)

abbrev pub bool_field : String → Members → Option Bool
bool_field k ms = as_bool (field k ms)

abbrev pub texts_field : String → Members → Option (List String)
texts_field k ms = as_texts (field k ms)

-- encoding/json's text of a value and its parser.
pub record Codec : Type 0 where
  pub marshal : Json → Bytes
  pub unmarshal : Bytes → Option Json
  pub text_of : Json → String
