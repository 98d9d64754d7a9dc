-- ===== src/Kernel/Metadata.antt =====
-- internal/kernel/repository_session.go: the metadata of a session, which stands as the map of
-- strings that its JSON text encodes, and the names of models.
use auto_ze_agent.Common.{
  List, Option, Text, [], codes, if◌then◌else◌, is_blank, is_nil, none, some, text_eq, trim_space,
  ◌++◌, ◌==◌, ◌||◌, ◌∷◌,
}
use auto_ze_agent.Kernel.Base.{invalid_aggregate, Result, ok, err}
use auto_ze_agent.Kernel.Session.{normalize_permission_stance}

abbrev pub Metadata : Type 0
Metadata = List (Text × Text)

unfoldable pub field_of : Text → Metadata → Option Text
field_of key [] = none
field_of key ((k, v) ∷ m) = let rest = field_of key m in if text_eq k key then some v else rest

abbrev pub trimmed : Option Text → Text
trimmed none = []
trimmed (some v) = trim_space v

unfoldable pub meta_string_field : Metadata → Text → Text
meta_string_field m key = trimmed (field_of key m)

-- An empty value is left out of the map.
unfoldable pub entry_of : Text → Text → Metadata
entry_of key value = if is_nil value then [] else (key, value) ∷ []

unfoldable pub session_metadata_encode : Text → Text → Text → Metadata
session_metadata_encode workspace preferred_model permission_stance =
    let stance = trim_space permission_stance in
    entry_of (codes "workspace") (trim_space workspace)
    ++ (entry_of (codes "model") (trim_space preferred_model)
        ++ entry_of (codes "permission_stance")
            (if text_eq stance (codes "agent") then [] else stance))

abbrev pub or_agent : Result Text → Text
or_agent (err e) = codes "agent"
or_agent (ok stance) = stance

unfoldable pub permission_stance_from_metadata : Metadata → Text
permission_stance_from_metadata m =
    or_agent (normalize_permission_stance (meta_string_field m (codes "permission_stance")))

-- `strings.Cut(s, "/")`, with `none` where there is no slash.
unfoldable pub cut_slash : Text → Option (Text × Text)
cut_slash [] = none
cut_slash (c ∷ s) =
    let rest = cut_slash s in
    if c == b'/' then some ([], s) else elim rest [ none ↦ none | some (p, q) ↦ some (c ∷ p, q) ]

unfoldable pub provider_model : Option (Text × Text) → Result Text
provider_model none = err invalid_aggregate
provider_model (some (provider, model)) =
    if is_blank provider || is_blank model
    then err invalid_aggregate
    else ok (trim_space provider ++ (codes "/" ++ trim_space model))

unfoldable pub normalize_model : Text → Result Text
normalize_model model =
    if is_blank model then ok [] else provider_model (cut_slash (trim_space model))
