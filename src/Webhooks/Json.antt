-- ===== src/Webhooks/Json.antt =====
-- The JavaScript values that a payload holds, and what the code asks of them. A number is kept as the
-- text that String(n) gives.
use clickup_sync.Common.{
  ℕ, String, Bool, true, false, not, ◌||◌, Option, none, some, ◌===◌, if◌then◌else◌,
}

mutual
  pub data Json : Type 0 where
    undefined null : Json
    boolean : Bool → Json
    number text : String → Json
    array : Items → Json
    object : Fields → Json

  pub data Items : Type 0 where
    no_items : Items
    item : Json → Items → Items

  pub data Fields : Type 0 where
    no_fields : Fields
    field : String → Json → Fields → Fields

-- What the platform computes for the code: String(v) of an array or an object, Number(s), the time of
-- `new Date(v)`, none for an invalid date, its toISOString, JSON.stringify, and the hash of a text.
pub record Platform : Type 0 where
  pub string_of : Json → String
  pub number_of : String → Json
  pub date_of : Json → Option ℕ
  pub iso_string : ℕ → String
  pub stringify : Json → String
  pub hash : String → String

abbrev pub is_truthy : Json → Bool
is_truthy undefined = false
is_truthy null = false
is_truthy (boolean b) = b
is_truthy (number n) = not ((n === "0") || (n === "NaN"))
is_truthy (text s) = not (s === "")
is_truthy (array items) = true
is_truthy (object o) = true

abbrev pub is_nullish : Json → Bool
is_nullish undefined = true
is_nullish null = true
is_nullish (boolean b) = false
is_nullish (number n) = false
is_nullish (text s) = false
is_nullish (array items) = false
is_nullish (object o) = false

-- `a || b`, and `a ?? b`.
infixr 20 ◌or◌ ◌otherwise◌
abbrev pub ◌or◌ : Json → Json → Json
a or b = if is_truthy a then a else b

abbrev pub ◌otherwise◌ : Json → Json → Json
a otherwise b = if is_nullish a then b else a

abbrev pub lookup : String → Fields → Json
lookup key no_fields = undefined
lookup key (field name v rest) = let found = lookup key rest in if name === key then v else found

-- `v?.key`: the keys that the code reads are no properties of texts, numbers or arrays.
abbrev pub get : String → Json → Json
get key undefined = undefined
get key null = undefined
get key (boolean b) = undefined
get key (number n) = undefined
get key (text s) = undefined
get key (array items) = undefined
get key (object o) = lookup key o

-- `v?.[0]`: the code goes on to properties of it, which a text's first letter does not have.
abbrev pub first_of : Json → Json
first_of undefined = undefined
first_of null = undefined
first_of (boolean b) = undefined
first_of (number n) = undefined
first_of (text s) = undefined
first_of (array no_items) = undefined
first_of (array (item v rest)) = v
first_of (object o) = lookup "0" o

-- `Array.isArray(v) ? v : []`
abbrev pub items_of : Json → Items
items_of undefined = no_items
items_of null = no_items
items_of (boolean b) = no_items
items_of (number n) = no_items
items_of (text s) = no_items
items_of (array items) = items
items_of (object o) = no_items

-- `typeof v === 'string'`
abbrev pub as_text : Json → Option String
as_text undefined = none
as_text null = none
as_text (boolean b) = none
as_text (number n) = none
as_text (text s) = some s
as_text (array items) = none
as_text (object o) = none

-- `v === 's'`
abbrev pub is_text : String → Json → Bool
is_text s undefined = false
is_text s null = false
is_text s (boolean b) = false
is_text s (number n) = false
is_text s (text t) = t === s
is_text s (array items) = false
is_text s (object o) = false

abbrev bool_text : Bool → String
bool_text true = "true"
bool_text false = "false"

-- String(v), and what a template makes of v.
abbrev pub text_of : Platform → Json → String
text_of js undefined = "undefined"
text_of js null = "null"
text_of js (boolean b) = bool_text b
text_of js (number n) = n
text_of js (text s) = s
text_of js (array items) = js.string_of (array items)
text_of js (object o) = js.string_of (object o)

abbrev pub text_or_null : Option String → Json
text_or_null none = null
text_or_null (some s) = text s
