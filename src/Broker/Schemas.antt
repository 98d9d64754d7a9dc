-- ===== src/Broker/Schemas.antt =====
-- internal/tools/broker.go: the registration of tools. `decode` is what `json.Unmarshal` makes of a
-- schema, with `none` for an error; the numbers, the Booleans and `null` are one constructor.
use auto_ze_agent.Common.{
  Bool, List, Option, Text, [], codes, false, find_row, if◌then◌else◌, is_blank, is_nil, is_some,
  leb_ℤ, none, not, pos, some, text_eq, trim_space, true, ◌&&◌, ◌++◌, ◌||◌, ◌∷◌,
}
use auto_ze_agent.Policy.{valid_risk}
use auto_ze_agent.Broker.Requests.{
  Definition, Tool, ToolError, invalid_tool, duplicate_tool, valid_name,
}

mutual
  pub data Json : Type 0 where
    object : Fields → Json
    array : Items → Json
    string : Text → Json
    other_json : Json

  pub data Items : Type 0 where
    no_items : Items
    item : Json → Items → Items

  pub data Fields : Type 0 where
    no_fields : Fields
    field : Text → Json → Fields → Fields

unfoldable pub get_field : Text → Fields → Option Json
get_field name no_fields = none
get_field name (field n v fs) =
    let rest = get_field name fs in if text_eq n name then some v else rest

unfoldable pub is_string_of : Text → Option Json → Bool
is_string_of kind (some (string s)) = text_eq s kind
is_string_of kind _ = false

unfoldable pub object_if_there : Option Json → Bool
object_if_there none = true
object_if_there (some (object fs)) = true
object_if_there (some _) = false

unfoldable pub all_strings : Items → Bool
all_strings no_items = true
all_strings (item (string s) js) = all_strings js
all_strings (item _ js) = false

unfoldable pub strings_if_there : Option Json → Bool
strings_if_there none = true
strings_if_there (some (array js)) = all_strings js
strings_if_there (some _) = false

unfoldable pub is_object_schema : Option Json → Bool
is_object_schema (some (object fs)) =
    is_string_of (codes "object") (get_field (codes "type") fs)
    && (object_if_there (get_field (codes "properties") fs)
        && strings_if_there (get_field (codes "required") fs))
is_object_schema _ = false

-- The map from names to handlers.
pub record Entry : Type 0 where
  pub name : Text
  pub tool : Tool

module _ (json_valid : Text → Bool) (decode : Text → Option Json) where
  -- Whether `validateInputSchema` returns no error.
  unfoldable pub validate_input_schema : Text → Bool
  validate_input_schema raw = not (is_nil raw) && (json_valid raw && is_object_schema (decode raw))

  unfoldable pub well_defined : Definition → Bool
  well_defined d =
      let name = trim_space d.name in
      not (is_nil name || is_blank d.description)
      && (valid_name name
          && (not (leb_ℤ d.default_timeout_millis (pos 0))
              && (valid_risk d.risk && validate_input_schema d.input_schema)))

  unfoldable pub register : Tool → List Entry → List Entry × Option ToolError
  register tool registry =
      let name = trim_space tool.definition.name in
      if not (well_defined tool.definition)
      then (registry, some invalid_tool)
      else if is_some (find_row Entry.name name registry)
      then (registry, some duplicate_tool)
      else (registry ++ record { name = name; tool = tool } ∷ [], none)
