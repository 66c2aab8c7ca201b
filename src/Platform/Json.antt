-- ===== src/Platform/Json.antt =====
-- The JavaScript values that replies and requests are made of, property access, `??` and `String`.
-- Numbers are whole and not negative.
pub mod Entries
use widespread_logos.Prelude.{
  ℕ, ◌==◌, Bool, true, false, not, List, [], ◌∷◌, ◌++◌, Text, codes, text_eq, Result, ok, err,
  type_error, if◌then◌else◌,
}
use widespread_logos.Platform.{decimal}

mutual
  pub data Value : Type 0 where
    undefined null : Value
    bool : Bool → Value
    num : ℕ → Value
    str : Text → Value
    arr : Values → Value
    obj : Fields → Value

  pub data Values : Type 0 where
    nil : Values
    item : Value → Values → Values

  pub data Fields : Type 0 where
    empty : Fields
    field : Text → Value → Fields → Fields

abbrev pub array : List Value → Values
array [] = nil
array (v ∷ vs) = item v (array vs)

abbrev pub fields : List (Text × Value) → Fields
fields [] = empty
fields ((k, v) ∷ fs) = field k v (fields fs)

-- An object literal.
abbrev pub object : List (Text × Value) → Value
object fs = obj (fields fs)

abbrev pub items : Values → List Value
items nil = []
items (item v vs) = v ∷ items vs

unfoldable pub find : Text → Fields → Value
find key empty = undefined
find key (field k v fs) = if text_eq k key then v else find key fs

-- `record[key] = v`
unfoldable pub set_field : Text → Value → Fields → Fields
set_field key w empty = field key w empty
set_field key w (field k v fs) =
    if text_eq k key then field k w fs else field k v (set_field key w fs)

-- `{...o, ...params}`
unfoldable pub spread : Fields → Fields → Fields
spread o empty = o
spread o (field k v fs) = spread (set_field k v o) fs

-- `v.key`
unfoldable pub get : Text → Value → Result Value
unfolding find
get key undefined = err type_error
get key null = err type_error
get key (obj fs) = ok (find key fs)
get key (bool _) = ok undefined
get key (num _) = ok undefined
get key (str _) = ok undefined
get key (arr _) = ok undefined

-- `v?.key`
unfoldable pub get? : Text → Value → Value
unfolding find
get? key undefined = undefined
get? key null = undefined
get? key (obj fs) = find key fs
get? key (bool _) = undefined
get? key (num _) = undefined
get? key (str _) = undefined
get? key (arr _) = undefined

-- `v ?? w`
unfoldable pub or_else : Value → Value → Value
or_else undefined w = w
or_else null w = w
or_else (bool b) w = bool b
or_else (num n) w = num n
or_else (str s) w = str s
or_else (arr vs) w = arr vs
or_else (obj fs) w = obj fs

-- `!!v`
unfoldable pub truthy : Value → Bool
truthy undefined = false
truthy null = false
truthy (bool b) = b
truthy (num n) = not (n == 0)
truthy (str s) = not (text_eq s [])
truthy (arr vs) = true
truthy (obj fs) = true

unfoldable mutual
  unfolding decimal

  -- `String(v)`
  pub to_text : Value → Text
  to_text undefined = codes "undefined"
  to_text null = codes "null"
  to_text (bool b) = if b then codes "true" else codes "false"
  to_text (num n) = decimal n
  to_text (str s) = s
  to_text (arr nil) = []
  to_text (arr (item v vs)) = item_text v ++ rest_text vs
  to_text (obj fs) = codes "[object Object]"

  -- An element, as Array.prototype.join prints it.
  item_text : Value → Text
  item_text undefined = []
  item_text null = []
  item_text (bool b) = if b then codes "true" else codes "false"
  item_text (num n) = decimal n
  item_text (str s) = s
  item_text (arr nil) = []
  item_text (arr (item v vs)) = item_text v ++ rest_text vs
  item_text (obj fs) = codes "[object Object]"

  rest_text : Values → Text
  rest_text nil = []
  rest_text (item v vs) = codes "," ++ (item_text v ++ rest_text vs)
