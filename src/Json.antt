-- ===== src/Json.antt =====
-- Values that the source reads as untyped: JSON columns of the database and provider responses.
use noti.Common.{Bool, true, false, not, List, [], ◌∷◌, Option, none, some, if◌then◌else◌, is_empty}
use noti.Text.{Text, units, text_eq}

-- A number stands by the text that `String` gives it.
mutual
  pub data Json : Type 0 where
    undefined null : Json
    -- only what objects inherit
    function : Json
    boolean : Bool → Json
    number : Text → Json
    string : Text → Json
    array : Items → Json
    object : Fields → Json

  pub data Items : Type 0 where
    nil : Items
    item : Json → Items → Items

  pub data Fields : Type 0 where
    end : Fields
    field : Text → Json → Fields → Fields

unfoldable pub lookup_field : Text → Fields → Json
unfolding text_eq
lookup_field k end = undefined
lookup_field k (field j v fs) = let rest = lookup_field k fs in if text_eq j k then v else rest

-- `value?.key`, for keys that arrays and strings do not have
unfoldable pub at_key : Text → Json → Json
unfolding lookup_field
at_key k (object fs) = lookup_field k fs
at_key k _ = undefined

-- `value?.[0]`
unfoldable pub first_item : Json → Json
first_item (array (item v vs)) = v
first_item _ = undefined

-- `Boolean(value)`
unfoldable pub truthy : Json → Bool
unfolding text_eq
truthy undefined = false
truthy null = false
truthy function = true
truthy (boolean b) = b
truthy (number t) = not (text_eq t (units "0"))
truthy (string t) = not (is_empty t)
truthy (array vs) = true
truthy (object fs) = true

-- `a ?? b`
unfoldable pub or_else : Json → Json → Json
or_else undefined b = b
or_else null b = b
or_else a b = a

-- `typeof value === 'string' ? value : null`
unfoldable pub as_string : Json → Option Text
as_string (string t) = some t
as_string _ = none

-- `value && typeof value === 'object' ? value : null`; an array is an object too
unfoldable pub as_object : Json → Option Json
as_object (array vs) = some (array vs)
as_object (object fs) = some (object fs)
as_object _ = none

-- `Array.isArray(value) ? value : null`
unfoldable pub as_array : Json → Option Json
as_array (array vs) = some (array vs)
as_array _ = none

-- `value === false`
unfoldable pub is_false : Json → Bool
is_false (boolean false) = true
is_false _ = false

-- `value === true`
unfoldable pub is_true : Json → Bool
is_true (boolean true) = true
is_true _ = false

-- `value === 'text'`
unfoldable pub is_text : Text → Json → Bool
unfolding text_eq
is_text t (string s) = text_eq s t
is_text t _ = false

unfoldable pub item_list : Items → List Json
item_list nil = []
item_list (item v vs) = v ∷ item_list vs
