-- ===== src/Permission/Decide.antt =====
-- internal/toolpermission/service.go: the decision on a request. `documents` stands for the stored
-- JSON of a plan and its decoding, `short_hash` for the hash of the parts, `saves` for whether the
-- trust file can be written, `format` for the text of a time; the others are those of the issue of a
-- grant.
use auto_ze_agent.Common.{
  ◌⊎◌, inl, inr, Bool, List, Option, Text, [], codes, eq_ℤ, false, if◌then◌else◌, is_blank, is_some,
  keep_if, none, not, signed64, some, text_eq, to_lower, trim_space, true, ◌&&◌, ◌++◌, ◌+◌, ◌||◌,
  ◌∷◌,
}
use auto_ze_agent.Kernel.Base.{Time}
use auto_ze_agent.Approval.Match.{CapabilityScope, Grant}
use auto_ze_agent.Approval.Normal.{text_ltb}
use auto_ze_agent.Approval.Document.{PlanDocument, StepScope, normalized}
use auto_ze_agent.Approval.Records.{
  ApprovalRow, Issued, IssueError, already_exists, approves_plan, invalid_plan, issued,
  not_approved, not_issued,
}
use auto_ze_agent.Approval.Issue.{GrantInput, issue_grant}
use auto_ze_agent.Approval.Decide.{is_plan_scope}
use auto_ze_agent.Permission.Trust.{TrustEntry}
use auto_ze_agent.Permission.Requests.{Outcome, Request, get, or_else, state_pending}
use auto_ze_agent.Permission.Scopes.{find_plan_scope, narrow_scope_for_similar}
use auto_ze_agent.Permission.Choices.{
  Choice, Answer, Permits, DecideOptions, allow_permanent, deny, choice_of, choice_text,
  allowed_state, is_once, lifetime, first_path, finish, refused, invalid_decide, not_found,
  not_pending, no_plan, undecodable, no_scope, no_step, not_saved, refused_issue,
}

unfoldable pub plan_hash_of : (PlanDocument → Text) → Option PlanDocument → Option Text
plan_hash_of hash none = none
plan_hash_of hash (some p) = some (hash p)

module _ (format : Time → Text) where
  -- `ORDER BY decided_at DESC, approval_id DESC`.
  unfoldable pub comes_first : ApprovalRow → ApprovalRow → Bool
  comes_first a b =
      text_ltb (format b.decided_at) (format a.decided_at)
      || (text_eq (format b.decided_at) (format a.decided_at)
          && text_ltb b.approval_id a.approval_id)

  unfoldable pub first_row : List ApprovalRow → Option ApprovalRow
  first_row [] = none
  first_row (a ∷ rows) = elim (first_row rows) [
    | none ↦ some a
    | some b ↦ if comes_first a b then some a else some b
  ]

  unfoldable pub is_usable : PlanDocument → Text → ApprovalRow → Bool
  is_usable p hash row =
      text_eq row.plan_id p.plan_id
      && (eq_ℤ row.plan_revision (signed64 p.revision)
          && (text_eq row.plan_hash hash
              && (approves_plan row.decision
                  && (is_plan_scope row.scope_type
                      && (not (is_some row.step_id) && not (is_some row.invalidated_at))))))

  unfoldable pub find_approval : PlanDocument → Text → List ApprovalRow → Option ApprovalRow
  find_approval p hash rows = first_row (keep_if (is_usable p hash) rows)

  unfoldable pub found_approval : Option ApprovalRow → IssueError ⊎ Text
  found_approval none = inl not_approved
  found_approval (some row) = inr row.approval_id

  -- The second query, by the hash of the plan, runs where the first finds nothing.
  unfoldable pub lookup_again :
      PlanDocument → Option Text → List ApprovalRow → Option ApprovalRow → IssueError ⊎ Text
  lookup_again p hash rows (some row) = inr row.approval_id
  lookup_again p none rows none = inl invalid_plan
  lookup_again p (some h) rows none = found_approval (find_approval p h rows)

  abbrev pub asked_hash : Text → Option Text → Option Text
  asked_hash plan_hash own = if is_blank plan_hash then own else some (trim_space plan_hash)

  -- `lookupApprovalID`; `own` is the hash of the plan.
  unfoldable pub lookup_approval_id :
      PlanDocument → Option Text → Text → List ApprovalRow → IssueError ⊎ Text
  lookup_approval_id p own plan_hash rows = elim (asked_hash plan_hash own) [
    | none ↦ inl invalid_plan
    | some h ↦ lookup_again p own rows (find_approval p h rows)
  ]

-- What the service calls, and the settings it has.
pub record Outside : Type 0 where
  pub format : Time → Text
  pub clean : Text → Text
  pub lower : Text → Text
  pub encode : CapabilityScope → Text
  pub hash : PlanDocument → Text
  pub known_step : Text → Bool
  pub appends : Grant → Bool
  pub short_hash : List Text → Text
  pub documents : Text → Option (Option PlanDocument)
  pub saves : List TrustEntry → Bool

-- What is decided of which request.
pub record Order : Type 0 where
  pub id : Text
  pub choice : Choice
  pub actor : Text
  pub now : Time
  pub trust_path : Text

abbrev pub is_permanent : Choice → Bool
is_permanent allow_permanent = true
is_permanent _ = false

module _ (x : Outside) where
  unfoldable pub outcome : Order → Text → Outcome
  outcome o grant_id = record {
    decision = choice_text o.choice;
    state = allowed_state o.choice;
    grant_id = grant_id;
    decided_by = o.actor;
    decided_at = x.format o.now;
  }

  unfoldable pub trust_entry : Order → CapabilityScope → Request → TrustEntry
  trust_entry o scope req = record {
    capability = scope.capability;
    path_prefix = first_path scope.paths;
    command = scope.command;
    args_prefix = scope.arguments;
    created_at = x.format o.now;
    session_hint = req.session_id;
  }

  -- From the issued grant on.
  unfoldable pub persist : Order → CapabilityScope → Request → Text → Permits → Permits × Answer
  persist o scope req grant_id s =
      let entries = s.trusted ++ trust_entry o scope req ∷ [] in
      if is_permanent o.choice && not (is_blank o.trust_path)
      then (if x.saves entries
          then finish o.id (outcome o grant_id) (record s { trusted = entries })
          else (s, refused not_saved))
      else finish o.id (outcome o grant_id) s

  unfoldable pub after_issue :
      Order → CapabilityScope → Request → Text → Permits → Issued Grant → Permits × Answer
  after_issue o scope req grant_id s (issued db g) =
      persist o scope req grant_id (record s { tables = db })
  after_issue o scope req grant_id s (not_issued already_exists) = persist o scope req grant_id s
  after_issue o scope req grant_id s (not_issued e) = (s, refused (refused_issue e))

  abbrev pub grant_id_of : Order → CapabilityScope → Text
  grant_id_of o scope =
      codes "perm-grant-" ++ x.short_hash (o.id ∷ choice_text o.choice ∷ scope.capability ∷ [])

  abbrev pub grant_input : Order → CapabilityScope → PlanDocument → StepScope → Text → GrantInput
  grant_input o scope p step approval_id = record {
    id = grant_id_of o scope;
    approval_id = approval_id;
    document = p;
    step_id = step.step_id;
    scope = scope;
    issued_at = o.now;
    expires_at = o.now + lifetime o.choice;
  }

  -- The grant is issued for the first step of the plan.
  unfoldable pub issue_for :
      Order
      → CapabilityScope
      → Request
      → PlanDocument
      → List StepScope
      → Text
      → Permits
      → Permits × Answer
  issue_for o scope req p [] approval_id s = (s, refused no_step)
  issue_for o scope req p (step ∷ _) approval_id s =
      after_issue o scope req (grant_id_of o scope) s (
        issue_grant x.clean x.lower x.encode x.hash x.known_step x.appends o.now
          (grant_input o scope p step approval_id) s.tables)

  unfoldable pub allow_approved :
      Order
      → CapabilityScope
      → Request
      → PlanDocument
      → Permits
      → IssueError ⊎ Text
      → Permits × Answer
  allow_approved o scope req p s (inl e) = (s, refused (refused_issue e))
  allow_approved o scope req p s (inr approval_id) = issue_for o scope req p p.steps approval_id s

  unfoldable pub allow_scope :
      Order → Request → PlanDocument → Permits → Option CapabilityScope → Permits × Answer
  allow_scope o req p s none = (s, refused no_scope)
  allow_scope o req p s (some c) =
      allow_approved o (narrow_scope_for_similar x.clean x.lower c req) req p s (
        lookup_approval_id x.format p (plan_hash_of x.hash (normalized x.clean x.lower x.encode p))
          req.plan_hash s.tables.approvals)

  unfoldable pub allow_loaded :
      Order → Request → Permits → Option (Option PlanDocument) → Permits × Answer
  allow_loaded o req s none = (s, refused no_plan)
  allow_loaded o req s (some none) = (s, refused undecodable)
  allow_loaded o req s (some (some p)) = allow_scope o req p s (
      find_plan_scope x.clean x.lower p req.step_id req.capability req.tool_name (is_once o.choice))

  unfoldable pub decide_open : Order → Permits → Request → Choice → Permits × Answer
  decide_open o s req deny = finish o.id (outcome o []) s
  decide_open o s req _ = allow_loaded o req s (x.documents req.plan_id)

  unfoldable pub decide_found : Order → Permits → Option Request → Permits × Answer
  decide_found o s none = (s, refused not_found)
  decide_found o s (some req) =
      if text_eq req.state state_pending
      then decide_open o s req o.choice
      else (s, refused not_pending)

  unfoldable pub decide_as :
      Text → Text → DecideOptions → Time → Permits → Option Choice → Permits × Answer
  decide_as id actor opts now s none = (s, refused invalid_decide)
  decide_as id actor opts now s (some choice) =
      let o : Order = record {
        id = id;
        choice = choice;
        actor = or_else actor (codes "user");
        now = now;
        trust_path = opts.trust_path;
      } in
      if is_permanent choice && not opts.confirm
      then (s, refused invalid_decide)
      else decide_found o s (get id s.requests)

  -- `DecideWithOptions`.
  unfoldable pub decide_with_options :
      Text → Text → Text → DecideOptions → Time → Permits → Permits × Answer
  decide_with_options permission_id decision actor opts now s =
      decide_as (trim_space permission_id) (trim_space actor) opts now s
        (choice_of (to_lower (trim_space decision)))
