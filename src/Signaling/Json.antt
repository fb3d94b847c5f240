-- ===== src/Signaling/Json.antt =====
-- The values of the package serde_json that the server builds. An object keeps the order in which
-- its fields were written.
use light_livechat.Base.{ℕ, String, Bool, List, [], ◌∷◌, Option, none, some}

mutual
  pub data Json : Type 0 where
    null : Json
    truth : Bool → Json
    number : ℕ → Json
    text : String → Json
    array : Items → Json
    object : Fields → Json

  pub data Items : Type 0 where
    nil : Items
    cons : Json → Items → Items

  pub data Fields : Type 0 where
    end : Fields
    field : String → Json → Fields → Fields

abbrev pub items_of : List Json → Items
items_of [] = nil
items_of (j ∷ js) = cons j (items_of js)

abbrev pub fields_of : List (String × Json) → Fields
fields_of [] = end
fields_of ((k, j) ∷ fs) = field k j (fields_of fs)

abbrev pub list : List Json → Json
list js = array (items_of js)

abbrev pub json : List (String × Json) → Json
json fs = object (fields_of fs)

-- `if let Some(v) = … { j["key"] = json!(v) }` behind the other fields.
abbrev pub if_some : String → Option ℕ → List (String × Json)
if_some key none = []
if_some key (some n) = (key, number n) ∷ []
