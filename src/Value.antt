-- ===== src/Value.antt =====
-- Go's `any` as the program uses it: a JSON value. A number is held by its JSON text,
-- and `raw` is a `json.RawMessage`, which is encoded as it stands.
use codex_a2a.Base.{String, Bool, Option, none, some, [], ◌∷◌, ◌==◌, if◌then◌else◌}
use codex_a2a.Base.Maps.{Map}

mutual
  pub data Value : Type 0 where
    null : Value
    bool : Bool → Value
    num : String → Value
    str : String → Value
    raw : String → Value
    arr : Values → Value
    obj : Fields → Value

  pub data Values : Type 0 where
    nil : Values
    cons : Value → Values → Values

  pub data Fields : Type 0 where
    end : Fields
    field : String → Value → Fields → Fields

-- A `map[string]any` as a value.
abbrev pub fields : Map Value → Fields
fields [] = end
fields ((k, v) ∷ m) = field k v (fields m)

-- `v, ok := payload[k]`
unfoldable pub get_field : String → Fields → Option Value
get_field k end = none
get_field k (field j v fs) = if j == k then some v else get_field k fs

-- `payload[k]`, which is nil for a missing key
abbrev pub or_null : Option Value → Value
or_null none = null
or_null (some v) = v
