-- ===== src/Broker/Registry.antt =====
-- The registry of tools over any registrations (internal/tools/broker.go).
use auto_ze_agent.Common.{
  All, All-append, Bool, Bool-cases, List, Option, Option-cases, Text, [], count_of, count_of-new,
  count_of-unused, find_row, inl, inr, keys-append, map, refl, subst, sym, trim_space, true, ◌∷◌,
  ◌≡◌, ◌≤◌,
}
use auto_ze_agent.Broker.Requests.{Tool}
use auto_ze_agent.Broker.Schemas.{Json, Entry, well_defined, register}

module _ (json_valid : Text → Bool) (decode : Text → Option Json) where
  abbrev pub IsRegistered : Entry → Type 0
  IsRegistered e =
      (e.name ≡ trim_space e.tool.definition.name)
      × (well_defined json_valid decode e.tool.definition ≡ true)

  -- Every entry is a valid tool under its own name, and no name has two entries.
  abbrev pub IsRegistry : List Entry → Type 0
  IsRegistry es = All IsRegistered es × ((name : Text) → count_of name (map Entry.name es) ≤ 1)

  unfoldable pub register_all : List Tool → List Entry → List Entry
  register_all [] es = es
  register_all (t ∷ ts) es = register_all ts (register json_valid decode t es).0

  register-IsRegistry :
      (t : Tool) (es : List Entry) → IsRegistry es → IsRegistry (register json_valid decode t es).0
  unfolding register
  register-IsRegistry t es (valid, unique) =
      elim (Bool-cases (well_defined json_valid decode t.definition)) [
        | inr e ↦ rw e (valid, unique)
        | inl e ↦ elim (Option-cases (find_row Entry.name (trim_space t.definition.name) es)) [
          | inr (x, f) ↦ rw (e, f) (valid, unique)
          | inl f ↦
              let new : Entry = record { name = trim_space t.definition.name; tool = t } in
              rw (e, f)
                (
                  All-append IsRegistered es (new ∷ []) valid ((refl, e), tt),
                  λ name.
                      subst (λ l. count_of name l ≤ 1) (sym (keys-append Entry.name es (new ∷ [])))
                        (count_of-new name new.name (map Entry.name es) (unique name)
                          (count_of-unused Entry.name new.name es f)),
                )
        ]
      ]

  -- Over any registrations, every entry of the registry is a valid tool under its own trimmed name,
  -- and no name has two entries, if this was so before.
  pub register_all-IsRegistry :
      (ts : List Tool) (es : List Entry) → IsRegistry es → IsRegistry (register_all ts es)
  unfolding register_all
  register_all-IsRegistry [] es h = h
  register_all-IsRegistry (t ∷ ts) es h =
      register_all-IsRegistry ts (register json_valid decode t es).0 (register-IsRegistry t es h)
