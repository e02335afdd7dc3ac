-- ===== src/Prelude/Json.antt =====
-- Values of `unknown` type: the JSON values, with a number as its text.
use mathlib.Core.Option.{Option, none, some}
use mathlib.Core.Bool.{Bool}
use mathlib.Core.List.{List, [], ◌∷◌}
use Prim.Native.String.{String}
use knowbalance.Prelude.Tests.{◌==◌, string_Eq, if◌then◌else◌}

mutual
  pub data Json : Type 0 where
    null : Json
    boolean : Bool → Json
    number : String → Json
    text : String → Json
    array : Elements → Json
    object : Fields → Json

  pub data Elements : Type 0 where
    nil : Elements
    cons : Json → Elements → Elements

  pub data Fields : Type 0 where
    done : Fields
    field : String → Json → Fields → Fields

abbrev pub elements : Elements → List Json
elements nil = []
elements (cons j rest) = j ∷ elements rest

abbrev pub elements_of : List Json → Elements
elements_of [] = nil
elements_of (j ∷ rest) = cons j (elements_of rest)

-- `o[name]`, where `none` is `undefined`.
abbrev pub get_field : String → Fields → Option Json
get_field name done = none
get_field name (field key value rest) = if key == name then some value else get_field name rest

-- `delete o[name]`
abbrev pub delete_field : String → Fields → Fields
delete_field name done = done
delete_field name (field key value rest) =
    let others = delete_field name rest in if key == name then others else field key value others

-- A field of a value that may be no object.
abbrev pub field_of : String → Json → Option Json
field_of name (object fields) = get_field name fields
field_of name _ = none

abbrev pub fields_of : List (String × Json) → Fields
fields_of [] = done
fields_of ((name, value) ∷ rest) = field name value (fields_of rest)
