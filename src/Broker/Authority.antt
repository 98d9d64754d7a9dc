-- ===== src/Broker/Authority.antt =====
-- What a verdict of `authorize` rests on (internal/tools/broker.go).
use auto_ze_agent.Common.{
  Bool, List, Text, [], arith, false, inl, inr, member, refl, subst, sym, text_eq_refl, true, ℤ,
  ◌∷◌, ◌≡◌, ◌≢◌, ◌⊎◌,
}
use auto_ze_agent.Policy.{Action, allow, require_approval, deny, other_action, evaluate}
use auto_ze_agent.Policy.Decisions.{IsBased, evaluate_sound}
use auto_ze_agent.Approval.Match.{Grant}
use auto_ze_agent.Approval.Grant.{Outcome, committed, rolled_back, authorize_and_consume}
use auto_ze_agent.Broker.Requests.{Definition, Request, Authorization, grant_candidates}
use auto_ze_agent.Broker.Calls.{World}
use auto_ze_agent.Broker.Execute.{
  Broker, Surroundings, request_of, Authority, no_grant_needed, denied, granted_by, first_consumed,
  consume_candidate, wait_or_deny, authorize_allowed, authorize_action, authorize,
}

-- The grant is a candidate that the request names, and was consumed for it.
abbrev pub UsesGrant :
    Surroundings → World → Request → Authorization → ℤ → Text → List Grant → List Text → Type 0
UsesGrant s w r scope timeout id after candidates =
    (member id candidates ≡ true)
    × (authorize_and_consume s.contains_resolved s.lower w.plans s.clock
          (request_of id r scope timeout s.now) w.grants
        ≡ committed after)

module _ (s : Surroundings) (b : Broker) (wait_disabled : Bool) where
  wait_or_deny_id :
      (q : Bool) (r : Request) (id : Text) (gs : List Grant)
      → wait_or_deny s b wait_disabled q r ≢ granted_by id gs
  unfolding wait_or_deny
  wait_or_deny_id q r id gs h = ground arith

  wait_or_deny_free :
      (q : Bool) (r : Request) → wait_or_deny s b wait_disabled q r ≢ no_grant_needed
  unfolding wait_or_deny
  wait_or_deny_free q r h = ground arith

  first_consumed_sound :
      (c id : Text) (o : Outcome) (rest : Authority) (gs : List Grant)
      → first_consumed c o rest ≡ granted_by id gs
      → ((c ≡ id) × (o ≡ committed gs)) ⊎ (rest ≡ granted_by id gs)
  unfolding first_consumed
  first_consumed_sound c id (committed after) rest gs h = ground arith
  first_consumed_sound c id (rolled_back e) rest gs h = inr h

  first_consumed_free :
      (c : Text) (o : Outcome) (rest : Authority)
      → first_consumed c o rest ≡ no_grant_needed
      → rest ≡ no_grant_needed
  unfolding first_consumed
  first_consumed_free c (committed after) rest h = absurd (cc)
  first_consumed_free c (rolled_back e) rest h = h

  module _ (w : World) (r : Request) (scope : Authorization) (timeout : ℤ) where
    consume_candidate_sound :
        (otherwise : Authority) (cs : List Text) (id : Text) (gs : List Grant)
        → otherwise ≢ granted_by id gs
        → consume_candidate s b wait_disabled w r scope timeout otherwise cs ≡ granted_by id gs
        → UsesGrant s w r scope timeout id gs cs
    unfolding consume_candidate member
    consume_candidate_sound otherwise [] id gs n h = absurd (n h)
    consume_candidate_sound otherwise (c ∷ cs) id gs n h =
        elim (first_consumed_sound c id _ _ gs h) [
          | inl (same, consumed) ↦ (
            rw (same, text_eq_refl id) refl,
            subst
                (λ i.
                  authorize_and_consume s.contains_resolved s.lower w.plans s.clock
                    (request_of i r scope timeout s.now) w.grants
                  ≡ committed gs)
                same consumed,
          )
          | inr further ↦
              let (m, consumed) = consume_candidate_sound otherwise cs id gs n further in
              (ground (arith, m), consumed)
        ]

    consume_candidate_free :
        (otherwise : Authority) (cs : List Text)
        → consume_candidate s b wait_disabled w r scope timeout otherwise cs ≡ no_grant_needed
        → otherwise ≡ no_grant_needed
    unfolding consume_candidate
    consume_candidate_free otherwise [] h = h
    consume_candidate_free otherwise (c ∷ cs) h =
        consume_candidate_free otherwise cs (first_consumed_free c _ _ h)

    pub authorize_allowed_sound :
        (q : Bool) (cs : List Text) (id : Text) (gs : List Grant)
        → authorize_allowed s b wait_disabled q w r scope timeout cs ≡ granted_by id gs
        → UsesGrant s w r scope timeout id gs cs
    unfolding authorize_allowed
    authorize_allowed_sound true [] id gs h = absurd (wait_or_deny_id true r id gs h)
    authorize_allowed_sound false [] id gs h = absurd (cc)
    authorize_allowed_sound q (c ∷ cs) id gs h =
        consume_candidate_sound _ (c ∷ cs) id gs (wait_or_deny_id q r id gs) h

    pub authorize_allowed_free :
        (q : Bool) (cs : List Text)
        → authorize_allowed s b wait_disabled q w r scope timeout cs ≡ no_grant_needed
        → (cs ≡ []) × (q ≡ false)
    unfolding authorize_allowed
    authorize_allowed_free true [] h = absurd (wait_or_deny_free true r h)
    authorize_allowed_free false [] h = (refl, refl)
    authorize_allowed_free q (c ∷ cs) h =
        absurd (wait_or_deny_free q r (consume_candidate_free _ (c ∷ cs) h))

    authorize_action_sound :
        (a : Action) (q : Bool) (x : Authority)
        → x ≢ denied
        → authorize_action s b wait_disabled a q w r scope timeout ≡ x
        → (a ≢ deny)
          × (authorize_allowed s b wait_disabled q w r scope timeout (grant_candidates r) ≡ x)
    unfolding authorize_action
    authorize_action_sound deny q x n h = absurd (n (sym h))
    authorize_action_sound allow q x n h = (λ e. absurd (cc), h)
    authorize_action_sound require_approval q x n h = (λ e. absurd (cc), h)
    authorize_action_sound (other_action t) q x n h = (λ e. absurd (cc), h)

    pub authorize_sound :
        (d : Definition) (x : Authority)
        → x ≢ denied
        → authorize s b wait_disabled w r d scope timeout ≡ x
        → IsBased b.policy d.risk (evaluate b.policy d.risk)
          × (authorize_allowed s b wait_disabled
                (evaluate b.policy d.risk).requires_approval
                w
                r
                scope
                timeout
                (grant_candidates r)
              ≡ x)
    unfolding authorize
    authorize_sound d x n h =
        let (a, k) =
          authorize_action_sound (evaluate b.policy d.risk).action
            (evaluate b.policy d.risk).requires_approval x n h in
        (evaluate_sound b.policy d.risk a, k)
