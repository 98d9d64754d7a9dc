-- ===== src/Permission/Scopes.antt =====
-- internal/toolpermission/service.go: the capability scope that a decision grants. `lower` stands for
-- `strings.ToLower`, `clean` for `path.Clean`.
use auto_ze_agent.Common.{
  Bool, List, Option, Text, [], any, codes, false, has_prefix, if◌then◌else◌, is_blank, is_nil,
  none, not, some, text_eq, trim_space, true, is_space, ◌&&◌, ◌++◌, ◌==◌, ◌||◌, ◌∷◌,
}
use auto_ze_agent.Approval.Match.{CapabilityScope, has_suffix}
use auto_ze_agent.Approval.Normal.{normalize_capability}
use auto_ze_agent.Approval.Document.{PlanDocument, StepScope}
use auto_ze_agent.Permission.Trust.{is_under, trim_slashes}
use auto_ze_agent.Permission.Requests.{Request, or_else}

-- `strings.Fields`; `word` is the field that has begun.
unfoldable pub fields_from : Text → Text → List Text
fields_from word [] = if is_nil word then [] else word ∷ []
fields_from word (c ∷ s) = elim (is_space c) [
  | true ↦ if is_nil word then fields_from [] s else word ∷ fields_from [] s
  | false ↦ fields_from (word ++ c ∷ []) s
]

-- The text before the last slash, if that is not the first rune.
unfoldable pub before_slash : Text → Option Text
before_slash [] = none
before_slash (c ∷ s) = elim (before_slash s) [
  | some t ↦ some (c ∷ t)
  | none ↦ if has_prefix s (codes "/") then some (c ∷ []) else none
]

abbrev pub shell_arguments : Text → List Text → List Text
shell_arguments script (a ∷ b ∷ _) = codes "-c" ∷ (a ++ codes " " ++ b) ∷ []
shell_arguments script _ = codes "-c" ∷ script ∷ []

abbrev pub leading_argument : List Text → List Text
leading_argument [] = []
leading_argument (a ∷ _) = a ∷ []

abbrev pub similar_arguments : Text → List Text → List Text
similar_arguments cmd (a ∷ b ∷ rest) =
    if text_eq cmd (codes "/bin/sh") && text_eq a (codes "-c")
    then shell_arguments (trim_space b) (fields_from [] (trim_space b))
    else a ∷ []
similar_arguments cmd args = leading_argument args

-- `applyProcessSimilarPrefix`.
unfoldable pub apply_process_similar_prefix : CapabilityScope → Request → CapabilityScope
apply_process_similar_prefix scope req = if is_blank req.command then scope else record scope {
  command = trim_space req.command;
  arguments = similar_arguments (trim_space req.command) req.command_args;
}

-- The first of the plan's paths that has the request's path.
unfoldable pub root_of : Text → List Text → Option Text
root_of path [] = none
root_of path (root ∷ roots) =
    let rest = root_of path roots in
    if not (is_blank root) && is_under path (trim_space root) then some (trim_space root) else rest

abbrev pub is_related : Text → Text → Bool
is_related prefix root = is_under prefix root || has_prefix root (trim_slashes prefix ++ codes "/")

unfoldable pub with_prefix : CapabilityScope → Text → CapabilityScope
with_prefix scope prefix =
    if any (λ root. is_related prefix (trim_space root)) scope.paths
    then record scope { paths = prefix ∷ [] }
    else scope

unfoldable pub under_parent : CapabilityScope → Text → Option Text → CapabilityScope
under_parent scope path none = with_prefix scope path
under_parent scope path (some parent) = elim (root_of path scope.paths) [
  | some root ↦ record scope { paths = root ∷ [] }
  | none ↦ with_prefix scope parent
]

unfoldable pub narrow_paths : CapabilityScope → Text → CapabilityScope
narrow_paths scope path =
    if is_nil path
    then scope
    else if has_suffix path (codes "/")
    then with_prefix scope path
    else under_parent scope path (before_slash path)

unfoldable pub narrow_process : CapabilityScope → Request → CapabilityScope
narrow_process scope req =
    if text_eq req.capability (codes "process_exec")
      || text_eq req.capability (codes "process_shell")
    then apply_process_similar_prefix scope req
    else scope

module _ (clean lower : Text → Text) where
  unfoldable pub narrow_domain : CapabilityScope → Request → CapabilityScope
  narrow_domain scope req =
      if text_eq req.capability (codes "http_get")
        && (not (is_blank req.network_domain) && is_nil scope.network_domains)
      then record scope { network_domains = lower (trim_space req.network_domain) ∷ [] }
      else scope

  -- `narrowScopeForSimilar`.
  unfoldable pub narrow_scope_for_similar : CapabilityScope → Request → CapabilityScope
  narrow_scope_for_similar scope req =
      narrow_paths (narrow_domain (narrow_process scope req) req) (trim_space req.path)

  -- The scopes of one step that have a normal form of this name.
  unfoldable pub candidates_of : Text → List CapabilityScope → List CapabilityScope
  candidates_of name [] = []
  candidates_of name (c ∷ cs) =
      let rest = candidates_of name cs in
      elim (normalize_capability clean lower c) [
        | none ↦ rest
        | some n ↦ if text_eq n.capability name then n ∷ rest else rest
      ]

  unfoldable pub candidates : (StepScope → Bool) → Text → List StepScope → List CapabilityScope
  candidates keeps name [] = []
  candidates keeps name (s ∷ ss) =
      let rest = candidates keeps name ss in
      if keeps s then candidates_of name s.capabilities ++ rest else rest

  abbrev pub is_wanted : Bool → CapabilityScope → Bool
  is_wanted true c = c.one_time && (c.max_calls == 1)
  is_wanted false c = not c.one_time

  -- The first that is wanted, else the last one.
  unfoldable pub pick :
      Bool → Option CapabilityScope → List CapabilityScope → Option CapabilityScope
  pick want_once fallback [] = fallback
  pick want_once fallback (c ∷ cs) =
      let rest = pick want_once (some c) cs in if is_wanted want_once c then some c else rest

  abbrev pub first_of : Option CapabilityScope → Option CapabilityScope → Option CapabilityScope
  first_of (some c) _ = some c
  first_of none d = d

  -- `findPlanScope`.
  unfoldable pub find_plan_scope : PlanDocument → Text → Text → Text → Bool → Option CapabilityScope
  find_plan_scope p step_id capability tool_name want_once =
      let name = or_else (trim_space capability) (trim_space tool_name) in
      let there =
        pick want_once none
          (candidates (λ s. is_nil step_id || text_eq s.step_id step_id) name p.steps) in
      let anywhere = pick want_once none (candidates (λ s. true) name p.steps) in
      first_of there (if is_nil step_id then none else anywhere)
