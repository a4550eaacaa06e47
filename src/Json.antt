-- ===== src/Json.antt =====
-- The dicts and lists that the backend answers with, sends over sockets and caches.
use intelli_attend_smart_boa.Base.{
  ℕ, String, Bool, Option, none, some, List, [], ◌∷◌, if◌then◌else◌, same,
}
use intelli_attend_smart_boa.Dict.{Dict}

-- A Python `int`; `negative n` is -(n + 1).
pub data PyInt : Type 0 where
  natural : ℕ → PyInt
  negative : ℕ → PyInt

mutual
  pub data Json : Type 0 where
    null : Json
    bool : Bool → Json
    num : ℕ → Json
    minus : ℕ → Json
    text : String → Json
    arr : Items → Json
    obj : Fields → Json

  pub data Items : Type 0 where
    nil : Items
    cons : Json → Items → Items

  pub data Fields : Type 0 where
    end : Fields
    field : String → Json → Fields → Fields

-- One entry of a dict: `"key" ↪ value , rest`.
infixr 60 ◌↪◌⨾◌
abbrev pub ◌↪◌⨾◌ : String → Json → Fields → Fields
k ↪ v ⨾ rest = field k v rest

-- `minus n` is the number -(n + 1).
abbrev pub int_json : PyInt → Json
int_json (natural n) = num n
int_json (negative n) = minus n

-- A value that may be `None`.
abbrev pub optional : Option String → Json
optional none = null
optional (some s) = text s

-- `d.get(key)`, and `key in d` where the answer is `some`.
abbrev pub get : String → Fields → Option Json
get k end = none
get k (field j v rest) = if same j k then some v else get k rest

-- `d[key] = value`
abbrev pub put : String → Json → Fields → Fields
put k v end = field k v end
put k v (field j w rest) = if same j k then field j v rest else field j w (put k v rest)

-- A list, and a dict, of values.
abbrev pub items : List Json → Items
items [] = nil
items (v ∷ vs) = cons v (items vs)

abbrev pub fields_of : Dict Json → Fields
fields_of [] = end
fields_of ((k, v) ∷ d) = field k v (fields_of d)
