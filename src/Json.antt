-- ===== src/Json.antt =====
-- encoding/json as the panel uses it: the values that `Unmarshal` makes of a document, and the two
-- functions as a parameter. Object keys are in the order of the document.
use motekarindo_panel.Base.{Bool, Option}
use motekarindo_panel.Base.Text.{Text}

mutual
  pub data Value : Type 0 where
    null : Value
    boolean : Bool → Value
    number : Text → Value
    string : Text → Value
    array : Items → Value
    object : Fields → Value

  pub data Items : Type 0 where
    nil : Items
    cons : Value → Items → Items

  pub data Fields : Type 0 where
    end : Fields
    field : Text → Value → Fields → Fields

-- json.Valid and json.Unmarshal into an `any`; `none` is an error.
pub record Codec : Type 0 where
  pub valid : Text → Bool
  pub unmarshal : Text → Option Value
