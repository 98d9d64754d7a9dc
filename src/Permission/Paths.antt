-- ===== src/Permission/Paths.antt =====
-- The ways through a decision (internal/toolpermission/service.go).
use auto_ze_agent.Common.{
  to_lower, Bool-cases, List, Option, Text, [], codes, find_row, inl, inr, is_blank, is_some, none,
  refl, some, text_eq, trim_space, true, ◌&&◌, ◌++◌, ◌∷◌, ◌≡◌, ◌⊎◌, not,
}
use auto_ze_agent.Kernel.Base.{Time}
use auto_ze_agent.Approval.Match.{CapabilityScope, Grant}
use auto_ze_agent.Approval.Document.{PlanDocument, StepScope}
use auto_ze_agent.Approval.Records.{Issued, IssueError, Tables, already_exists, issued, not_issued}
use auto_ze_agent.Permission.Requests.{Request, get, or_else, state_pending}
use auto_ze_agent.Permission.Scopes.{narrow_scope_for_similar}
use auto_ze_agent.Permission.Choices.{
  choice_of, Choice, DecideError, Answer, Permits, DecideOptions, allow_once, allow_similar,
  allow_permanent, deny, finish, refused, not_saved, refused_issue, no_step, no_scope, no_plan,
  undecodable, not_found, not_pending, invalid_decide,
}
use auto_ze_agent.Permission.Issues.{issue_grant-already, issue_grant-there}
use auto_ze_agent.Permission.Decide.{
  Order, Outside, trust_entry, after_issue, allow_approved, allow_loaded, allow_scope, decide_as,
  decide_found, decide_open, decide_with_options, grant_input, is_permanent, issue_for, outcome,
  persist,
}

module _ (x : Outside) where
  -- A denial leaves the tables of approvals and grants; for another choice the grant that is
  -- named is in the table.
  abbrev pub Backed : Order → Text → Permits → Permits → Type 0
  Backed o grant_id s mid =
      ((o.choice ≡ deny) × ((grant_id ≡ []) × (mid.tables ≡ s.tables)))
      ⊎ (¬ (o.choice ≡ deny)
          × ((t : Text) × ((grant_id ≡ codes "perm-grant-" ++ t)
                × (is_some (find_row Grant.id grant_id mid.tables.grants) ≡ true))))

  abbrev pub Finishes : Order → Permits → Permits × Answer → Type 0
  Finishes o s r =
      (grant_id : Text) × ((mid : Permits) × ((r ≡ finish o.id (outcome x o grant_id) mid)
          × ((mid.requests ≡ s.requests) × Backed o grant_id s mid)))

  abbrev pub Refused : Permits → Permits × Answer → Type 0
  Refused s r =
      (e : DecideError) × ((r.1 ≡ refused e)
        × ((r.0.requests ≡ s.requests) × (r.0.waiter ≡ s.waiter)))

  abbrev pub Reached : Order → Permits → Permits × Answer → Type 0
  Reached o s r = Refused s r ⊎ Finishes o s r

  stays : (s : Permits) (e : DecideError) → Refused s (s, refused e)
  stays s e = (e, (refl, (refl, refl)))

  persist-Reached :
      (o : Order) (scope : CapabilityScope) (req : Request) (grant_id : Text) (s mid : Permits)
      → mid.requests ≡ s.requests
      → mid.waiter ≡ s.waiter
      → Backed o grant_id s mid
      → Reached o s (persist x o scope req grant_id mid)
  unfolding persist
  persist-Reached o scope req grant_id s mid same waits backed =
      elim (Bool-cases (is_permanent o.choice && not (is_blank o.trust_path))) [
        | inl e ↦ elim (Bool-cases (x.saves (mid.trusted ++ trust_entry x o scope req ∷ []))) [
          | inl f ↦
              let mid' = record mid { trusted = mid.trusted ++ trust_entry x o scope req ∷ [] } in
              rw (e, f) (inr (grant_id, (mid', (refl, (same, backed)))))
          | inr f ↦ rw (e, f) (inl (not_saved, (refl, (same, waits))))
        ]
        | inr e ↦ rw e (inr (grant_id, (mid, (refl, (same, backed)))))
      ]

  after_issue-Reached :
      (o : Order) (scope : CapabilityScope) (req : Request) (t : Text) (s : Permits)
      (r : Issued Grant)
      → ¬ (o.choice ≡ deny)
      → ((db : Tables) (g : Grant)
          → r ≡ issued db g
          → is_some (find_row Grant.id (codes "perm-grant-" ++ t) db.grants) ≡ true)
      → (r ≡ not_issued already_exists
          → is_some (find_row Grant.id (codes "perm-grant-" ++ t) s.tables.grants) ≡ true)
      → Reached o s (after_issue x o scope req (codes "perm-grant-" ++ t) s r)
  unfolding after_issue
  after_issue-Reached o scope req t s (issued db g) no_deny there already =
      persist-Reached o scope req _ s (record s { tables = db }) refl refl
        (inr (no_deny, (t, (refl, there db g refl))))
  after_issue-Reached o scope req t s (not_issued already_exists) no_deny there already =
      persist-Reached o scope req _ s s refl refl (inr (no_deny, (t, (refl, already refl))))
  after_issue-Reached o scope req t s (not_issued e) no_deny there already =
      inl (stays s (refused_issue e))

  issue_for-Reached :
      (o : Order) (scope : CapabilityScope) (req : Request) (p : PlanDocument)
      (steps : List StepScope) (approval_id : Text) (s : Permits)
      → ¬ (o.choice ≡ deny)
      → Reached o s (issue_for x o scope req p steps approval_id s)
  unfolding issue_for
  issue_for-Reached o scope req p [] approval_id s no_deny = inl (stays s no_step)
  issue_for-Reached o scope req p (step ∷ _) approval_id s no_deny =
      let input = grant_input x o scope p step approval_id in
      after_issue-Reached o scope req _ s _ no_deny
        (λ db g h.
          issue_grant-there x.clean x.lower x.encode x.hash x.known_step x.appends o.now input
            s.tables db g h)
        (λ h.
          issue_grant-already x.clean x.lower x.encode x.hash x.known_step x.appends o.now input
            s.tables h)

  allow_scope-Reached :
      (o : Order) (req : Request) (p : PlanDocument) (s : Permits) (c : Option CapabilityScope)
      → ¬ (o.choice ≡ deny)
      → Reached o s (allow_scope x o req p s c)
  unfolding allow_scope
  allow_scope-Reached o req p s none no_deny = inl (stays s no_scope)
  allow_scope-Reached o req p s (some c) no_deny = approved _
    where
      approved :
          (found : IssueError ⊎ Text)
          → Reached o s
              (allow_approved x o (narrow_scope_for_similar x.clean x.lower c req) req p s found)
      approved (inl e) = unfold allow_approved in inl (stays s (refused_issue e))
      approved (inr i) = unfold allow_approved in issue_for-Reached o _ req p p.steps i s no_deny

  allow_loaded-Reached :
      (o : Order) (req : Request) (s : Permits) (d : Option (Option PlanDocument))
      → ¬ (o.choice ≡ deny)
      → Reached o s (allow_loaded x o req s d)
  unfolding allow_loaded
  allow_loaded-Reached o req s none no_deny = inl (stays s no_plan)
  allow_loaded-Reached o req s (some none) no_deny = inl (stays s undecodable)
  allow_loaded-Reached o req s (some (some p)) no_deny = allow_scope-Reached o req p s _ no_deny

  decide_open-Reached :
      (o : Order) (s : Permits) (req : Request) (c : Choice)
      → o.choice ≡ c
      → Reached o s (decide_open x o s req c)
  unfolding decide_open
  decide_open-Reached o s req deny e = inr ([], (s, (refl, (refl, inl (e, (refl, refl))))))
  decide_open-Reached o s req allow_once e =
      allow_loaded-Reached o req s (x.documents req.plan_id) (λ d. absurd (cc))
  decide_open-Reached o s req allow_similar e =
      allow_loaded-Reached o req s (x.documents req.plan_id) (λ d. absurd (cc))
  decide_open-Reached o s req allow_permanent e =
      allow_loaded-Reached o req s (x.documents req.plan_id) (λ d. absurd (cc))

  -- The order that a decision comes to.
  abbrev pub order_of : Text → Text → DecideOptions → Time → Choice → Order
  order_of id actor opts now choice = record {
    id = id;
    choice = choice;
    actor = or_else actor (codes "user");
    now = now;
    trust_path = opts.trust_path;
  }

  -- It is refused, or it comes to its last steps for a request that is pending, with the choice.
  abbrev pub Decides : Option Choice → Text → Permits → Permits × Answer → Type 0
  Decides c id s r =
      Refused s r
      ⊎ ((o : Order) × ((c ≡ some o.choice)
            × ((req : Request) × ((o.id ≡ id)
                  × ((get id s.requests ≡ some req)
                      × ((text_eq req.state state_pending ≡ true) × Finishes o s r))))))

  decide_found-Decides :
      (o : Order) (s : Permits) (found : Option Request)
      → get o.id s.requests ≡ found
      → Decides (some o.choice) o.id s (decide_found x o s found)
  unfolding decide_found
  decide_found-Decides o s none e = inl (stays s not_found)
  decide_found-Decides o s (some req) e = elim (Bool-cases (text_eq req.state state_pending)) [
    | inr h ↦ rw h (inl (stays s not_pending))
    | inl h ↦ rw h (elim (decide_open-Reached o s req o.choice refl) [
      | inl r ↦ inl r
      | inr f ↦ inr (o, (refl, (req, (refl, (e, (h, f))))))
    ])
  ]

  decide_as-Decides :
      (id actor : Text) (opts : DecideOptions) (now : Time) (s : Permits) (c : Option Choice)
      → Decides c id s (decide_as x id actor opts now s c)
  unfolding decide_as
  decide_as-Decides id actor opts now s none = inl (stays s invalid_decide)
  decide_as-Decides id actor opts now s (some choice) =
      elim (Bool-cases (is_permanent choice && not opts.confirm)) [
        | inl e ↦ rw e (inl (stays s invalid_decide))
        | inr e ↦ rw e (decide_found-Decides (order_of id actor opts now choice) s _ refl)
      ]

  pub decide_with_options-Decides :
      (permission_id decision actor : Text) (opts : DecideOptions) (now : Time) (s : Permits)
      → Decides
          (choice_of (to_lower (trim_space decision)))
          (trim_space permission_id)
          s
          (decide_with_options x permission_id decision actor opts now s)
  unfolding decide_with_options
  decide_with_options-Decides permission_id decision actor opts now s =
      decide_as-Decides (trim_space permission_id) (trim_space actor) opts now s _
