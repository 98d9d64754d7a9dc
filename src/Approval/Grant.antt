-- ===== src/Approval/Grant.antt =====
-- internal/approval/grant.go: the operations on the table of grants. Each runs in a transaction, so
-- it is a function of the table; an error rolls back. A row that cannot be decoded, a failure of
-- the database, and the nil receiver, context and transaction are left out. The column
-- `updated_at`, which no operation reads, is left out.
use auto_ze_agent.Common.{
  Bool, List, Option, Text, [], if◌then◌else◌, is_blank, is_some, keep_if, leb, ltb, map, none, not,
  some, suc, text_eq, ℕ, ◌&&◌, ◌+◌, ◌==◌, ◌∷◌,
}
use auto_ze_agent.Kernel.Base.{Time, normalized_time}
use auto_ze_agent.Kernel.Task.{task_state_text, running}
use auto_ze_agent.Approval.Match.{Grant, GrantRequest, grant_matches_request}

pub data GrantError : Type 0 where
  grant_denied grant_expired grant_exhausted grant_revoked plan_changed not_found : GrantError
  event_refused : GrantError

pub data Outcome : Type 0 where
  committed : List Grant → Outcome
  rolled_back : GrantError → Outcome

unfoldable pub find_grant : Text → List Grant → Option Grant
find_grant id [] = none
find_grant id (g ∷ gs) = let rest = find_grant id gs in if text_eq g.id id then some g else rest

-- `UPDATE ... SET f WHERE p`: the new table and the number of rows affected.
unfoldable pub update_where : (Grant → Bool) → (Grant → Grant) → List Grant → List Grant × ℕ
update_where p f [] = ([], 0)
update_where p f (g ∷ gs) =
    let rest = update_where p f gs in
    if p g then (f g ∷ rest.0, suc rest.1) else (g ∷ rest.0, rest.1)

unfoldable pub load_grant : Text → List Grant → Option Grant
load_grant id grants = if is_blank id then none else find_grant id grants

abbrev pub is_active : Grant → Bool
is_active g = not (is_some g.revoked_at)

-- The row that `AuthorizeAndConsumeTx` updates.
unfoldable pub consumable : Grant → Grant → Bool
consumable grant g =
    text_eq g.id grant.id
    && ((g.used_calls == grant.used_calls) && (ltb g.used_calls g.scope.max_calls && is_active g))

abbrev pub consume : Grant → Grant
consume g = record g { used_calls = g.used_calls + 1 }

abbrev pub affects_one : GrantError → List Grant × ℕ → Outcome
affects_one e r = if r.1 == 1 then committed r.0 else rolled_back e

-- The checks on the plan's hash and the task's state that are stored.
unfoldable pub check_plan : Option (Text × Text) → Grant → Option GrantError
check_plan none grant = some not_found
check_plan (some (hash, state)) grant =
    if not (text_eq hash grant.plan_hash)
    then some plan_changed
    else if not (text_eq state (task_state_text running))
    then some grant_denied
    else none

unfoldable pub consume_checked : Option GrantError → Grant → List Grant → Outcome
consume_checked (some e) grant grants = rolled_back e
consume_checked none grant grants =
    affects_one grant_exhausted (update_where (consumable grant) consume grants)

-- `plans` gives the hash of a plan and the state of its task.
module _ (contains_resolved : Text → Text → Bool) (lower : Text → Text)
    (plans : Text → Option (Text × Text)) where
  unfoldable pub authorize_loaded : Time → GrantRequest → Option Grant → List Grant → Outcome
  authorize_loaded now request none grants = rolled_back grant_denied
  authorize_loaded now request (some grant) grants =
      if is_some grant.revoked_at
      then rolled_back grant_revoked
      else if not (ltb now grant.expires_at)
      then rolled_back grant_expired
      else if leb grant.scope.max_calls grant.used_calls
      then rolled_back grant_exhausted
      else if not (grant_matches_request contains_resolved lower grant request)
      then rolled_back grant_denied
      else consume_checked (check_plan (plans grant.plan_id) grant) grant grants

  unfoldable pub authorize_and_consume : Time → GrantRequest → List Grant → Outcome
  authorize_and_consume clock request grants =
      authorize_loaded (normalized_time clock request.now) request
        (load_grant request.grant_id grants) grants

-- `grant_id = ? AND revoked_at IS NULL`.
unfoldable pub revocable : Text → Grant → Bool
revocable id g = text_eq g.id id && is_active g

abbrev pub revoke_at : Time → Grant → Grant
revoke_at now g = record g { revoked_at = some now }

-- `appends` says whether the event of a grant is appended.
module _ (appends : Grant → Bool) where
  unfoldable pub after_event : Grant → Outcome → Outcome
  after_event grant (rolled_back e) = rolled_back e
  after_event grant (committed grants) =
      if appends grant then committed grants else rolled_back event_refused

  unfoldable pub revoke_loaded : Time → Option Grant → List Grant → Outcome
  revoke_loaded now none grants = rolled_back grant_denied
  revoke_loaded now (some grant) grants =
      if is_some grant.revoked_at
      then rolled_back grant_revoked
      else after_event grant
          (affects_one grant_revoked (update_where (revocable grant.id) (revoke_at now) grants))

  unfoldable pub revoke_grant : Time → Text → Time → List Grant → Outcome
  revoke_grant clock id now grants =
      revoke_loaded (normalized_time clock now) (load_grant id grants) grants

  unfoldable pub revoke_one : Time → Text → Option Grant → List Grant → Outcome
  revoke_one now id none grants = rolled_back grant_denied
  revoke_one now id (some grant) grants =
      after_event grant (committed (update_where (revocable id) (revoke_at now) grants).0)

  -- The loop over the grants found, in the transaction.
  unfoldable pub revoke_all : Time → List Text → Outcome → Outcome
  revoke_all now ids (rolled_back e) = rolled_back e
  revoke_all now [] (committed grants) = committed grants
  revoke_all now (id ∷ ids) (committed grants) =
      revoke_all now ids (revoke_one now id (load_grant id grants) grants)

  -- The grants are taken in the order of the table, where the query sorts them by their IDs.
  unfoldable pub revoke_task_grants : Time → Text → Time → List Grant → Outcome
  revoke_task_grants clock task_id now grants =
      if is_blank task_id
      then rolled_back grant_denied
      else revoke_all (normalized_time clock now)
          (map Grant.id (keep_if (λ g. text_eq g.task_id task_id && is_active g) grants))
          (committed grants)
