-- ===== src/Prelude/Json.antt =====
-- JSON values, as `json.loads` gives them to the code, and Python's operations on them.
use erlay_warnet.Prelude.{
  Bool, true, false, not, Option, none, some, List, [], ◌∷◌, ◌==◌, if◌then◌else◌,
}
use erlay_warnet.Prelude.Int.{ℤ, pos, negsuc}
use erlay_warnet.Prelude.Text.{Text, text_eq}

-- What `json.loads` makes of a text, but for fractions.
mutual
  pub data Json : Type 0 where
    null : Json
    boolean : Bool → Json
    number : ℤ → Json
    text : Text → Json
    array : Items → Json
    object : Fields → Json

  pub data Items : Type 0 where
    no_items : Items
    item : Json → Items → Items

  pub data Fields : Type 0 where
    no_fields : Fields
    field : Text → Json → Fields → Fields

-- `bool(value)`
unfoldable pub is_true : Json → Bool
is_true null = false
is_true (boolean b) = b
is_true (number (pos n)) = not (n == 0)
is_true (number (negsuc n)) = true
is_true (text []) = false
is_true (text (c ∷ t)) = true
is_true (array no_items) = false
is_true (array (item j js)) = true
is_true (object no_fields) = false
is_true (object (field k j fs)) = true

-- `d.get(key)`, whose `None` is also what `null` is read as.
unfoldable pub get_field : Text → Fields → Option Json
get_field key no_fields = none
get_field key (field k j fs) = let rest = get_field key fs in if text_eq k key then some j else rest

abbrev pub value_or_null : Option Json → Json
value_or_null none = null
value_or_null (some j) = j

abbrev pub keys : Fields → List Json
keys no_fields = []
keys (field k j fs) = text k ∷ keys fs

abbrev pub elements : Items → List Json
elements no_items = []
elements (item j js) = j ∷ elements js

abbrev pub characters : Text → List Json
characters [] = []
characters (c ∷ t) = text (c ∷ []) ∷ characters t

abbrev pub fields_of : Json → Option Fields
fields_of (object fs) = some fs
fields_of _ = none

abbrev pub text_of : Json → Option Text
text_of (text t) = some t
text_of _ = none
