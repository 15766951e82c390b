-- ===== src/Schema/Values.antt =====
-- JSON values, as `JSONField` columns and webhook payloads hold them.
use chargeflow.Prelude.{ℤ, String, Bool, same_text, if◌then◌else◌}

mutual
  pub data Json : Type 0 where
    null : Json
    bool : Bool → Json
    int : ℤ → Json
    -- a number with a fraction or an exponent, by its text
    real : String → Json
    str : String → Json
    array : Items → Json
    object : Fields → Json

  pub data Items : Type 0 where
    nil : Items
    cons : Json → Items → Items

  -- A `dict` with text keys.
  pub data Fields : Type 0 where
    empty : Fields
    field : String → Json → Fields → Fields

-- `payload.get(key)`
unfoldable pub field_value : String → Fields → Json
field_value k empty = Json.null
field_value k (field j v fs) = if same_text j k then v else field_value k fs

-- The text under a key, and "" where there is none: `payload.get(key, "")` for the keys that hold
-- texts.
unfoldable pub field_text : String → Fields → String
unfolding field_value
field_text k fs = elim (field_value k fs) [ Json.str s ↦ s | _ ↦ "" ]
