-- ===== src/Json.antt =====
-- The value type of a JSON document, with the constructors that the sources match on. A number is
-- the text that it prints as; an object's entries stand in the order in which they are iterated.
use rescriptum.Prelude.{Bool, Str}

mutual
  pub data Value : Type 0 where
    null : Value
    bool : Bool → Value
    number : Str → Value
    string : Str → Value
    array : Items → Value
    object : Fields → Value

  pub data Items : Type 0 where
    nil : Items
    item : Value → Items → Items

  pub data Fields : Type 0 where
    end : Fields
    field : Str → Value → Fields → Fields
