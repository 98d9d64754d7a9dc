-- ===== src/Approval/Match.antt =====
-- internal/approval/grant.go: whether a grant covers a request. `pathsecurity.ContainsResolved`
-- follows symbolic links, so it is a parameter: what the file system answers at the time.
use auto_ze_agent.Common.{
  Bool, List, Option, Text, [], any, codes, drop, false, has_prefix, if◌then◌else◌, is_blank,
  is_nil, leb, length, ltb, ltb_ℤ, negsuc, not, pos, take, text_eq, trim_space, true, ℕ, ℤ, ◌&&◌,
  ◌++◌, ◌-◌, ◌/◌, ◌==◌, ◌||◌, ◌∷◌,
}
use auto_ze_agent.Kernel.Base.{Time}

pub record CapabilityScope : Type 0 where
  pub capability : Text
  pub paths : List Text
  pub command : Text
  pub arguments : List Text
  pub network_domains : List Text
  pub max_duration_ms : ℤ
  pub max_calls : ℕ  -- uint64
  pub one_time : Bool

pub record Grant : Type 0 where
  pub id : Text
  pub approval_id : Text
  pub task_id : Text
  pub plan_id : Text
  pub step_id : Text
  pub plan_hash : Text
  pub scope : CapabilityScope
  pub issued_at : Time
  pub expires_at : Time
  pub used_calls : ℕ
  pub revoked_at : Option Time

-- The duration is in nanoseconds.
pub record GrantRequest : Type 0 where
  pub grant_id : Text
  pub task_id : Text
  pub plan_id : Text
  pub step_id : Text
  pub plan_hash : Text
  pub capability : Text
  pub path : Text
  pub command : Text
  pub arguments : List Text
  pub network_domain : Text
  pub duration : ℤ
  pub now : Time

-- `slices.Equal`.
unfoldable pub texts_eq : List Text → List Text → Bool
texts_eq [] [] = true
texts_eq (s ∷ ss) (t ∷ ts) = text_eq s t && texts_eq ss ts
texts_eq _ _ = false

-- The loop of `argsMatchPrefix` and the test of the last argument of the grant.
unfoldable pub match_leading : List Text → List Text → Bool
match_leading [] request_args = false
match_leading (g ∷ gs) [] = false
match_leading (g ∷ []) (r ∷ rs) = text_eq g r || (has_prefix r (g ++ codes " ") || has_prefix r g)
match_leading (g ∷ g' ∷ gs) (r ∷ rs) = text_eq g r && match_leading (g' ∷ gs) rs

unfoldable pub args_match_prefix : List Text → List Text → Bool
args_match_prefix grant_args request_args =
    if ltb (length request_args) (length grant_args) || is_nil grant_args
    then false
    else match_leading grant_args request_args

-- Whether `commandArgsMatch` returns no error.
unfoldable pub command_args_match : Text → List Text → Text → List Text → Bool
command_args_match grant_cmd grant_args request_cmd request_args =
    if not (is_nil grant_cmd) && not (text_eq grant_cmd (trim_space request_cmd))
    then false
    else if is_nil grant_args
    then true
    else if texts_eq grant_args request_args
    then true
    else args_match_prefix grant_args request_args

unfoldable pub has_suffix : Text → Text → Bool
has_suffix s t = leb (length t) (length s) && text_eq (drop (length s - length t) s) t

unfoldable pub trim_suffix : Text → Text → Text
trim_suffix s t = if has_suffix s t then take (length s - length t) s else s

unfoldable pub trim_prefix : Text → Text → Text
trim_prefix s t = if has_prefix s t then drop (length t) s else s

-- One round of the loop of `domainAllowed`.
unfoldable pub domain_covers : Text → Text → Bool
domain_covers requested scope =
    let suffix = trim_prefix scope (codes "*") in
    text_eq requested scope
    || (has_prefix scope (codes "*.")
        && (has_suffix requested suffix
            && not (text_eq requested (trim_prefix suffix (codes ".")))))

-- `lower` is `strings.ToLower`.
module _ (contains_resolved : Text → Text → Bool) (lower : Text → Text) where
  unfoldable pub domain_allowed : List Text → Text → Bool
  domain_allowed scopes domain =
      let requested = lower (trim_suffix (trim_space domain) (codes ".")) in
      if is_nil scopes
      then is_nil requested
      else if is_nil requested
      then false
      else any (domain_covers requested) scopes

  unfoldable pub path_allowed : List Text → Text → Bool
  path_allowed scopes path =
      let requested = trim_space path in
      if is_nil scopes
      then is_nil requested
      else if is_nil requested
      then false
      else any (λ scope. contains_resolved scope requested) scopes

  -- `request.Duration <= 0 || request.Duration.Milliseconds() > max`.
  unfoldable pub duration_exceeds : ℤ → ℤ → Bool
  duration_exceeds (pos n) max = (n == 0) || ltb_ℤ max (pos (n / 1000000))
  duration_exceeds (negsuc n) max = true

  -- Whether `grantMatchesRequest` returns no error; each error is `ErrGrantDenied`.
  unfoldable pub grant_matches_request : Grant → GrantRequest → Bool
  grant_matches_request grant request =
      if not (text_eq request.task_id grant.task_id)
        || (not (text_eq request.plan_id grant.plan_id)
            || not (text_eq request.step_id grant.step_id))
      then false
      else if is_blank request.plan_hash || not (text_eq request.plan_hash grant.plan_hash)
      then false
      else if not (text_eq (trim_space request.capability) grant.scope.capability)
      then false
      else if duration_exceeds request.duration grant.scope.max_duration_ms
      then false
      else if not (path_allowed grant.scope.paths request.path)
      then false
      else if not (
          command_args_match grant.scope.command grant.scope.arguments request.command
            request.arguments)
      then false
      else domain_allowed grant.scope.network_domains request.network_domain
