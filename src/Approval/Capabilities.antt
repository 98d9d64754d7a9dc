-- ===== src/Approval/Capabilities.antt =====
-- What `normalizeCapability` guarantees (internal/approval/plan.go).
use auto_ze_agent.Common.{
  Bool-cases, Text, arith, false, inl, inr, is_nil, pos, some, subst, true, ◌≡◌, ◌≤ℤ◌, ◌≤◌,
}
use auto_ze_agent.Approval.Match.{CapabilityScope}
use auto_ze_agent.Approval.Normal.{
  valid_calls, valid_paths, needs_paths, valid_capability, normalize_paths, normalize_domains,
  normal_scope, normalize_capability,
}
use auto_ze_agent.Approval.Order.{Increasing, sorted_unique_lem}

-- A positive duration and number of calls, one call if it is for one time, and, for the tools that
-- run processes or git, absolute paths and at least one.
abbrev pub IsBounded : CapabilityScope → Type 0
IsBounded s =
    (is_nil s.capability ≡ false)
    × (pos 1 ≤ℤ s.max_duration_ms)
    × (1 ≤ s.max_calls)
    × (s.one_time ≡ true → s.max_calls ≡ 1)
    × (needs_paths s.capability ≡ true → valid_paths s ≡ true)

valid_capability-IsBounded : (s : CapabilityScope) → valid_capability s ≡ true → IsBounded s
unfolding valid_capability valid_calls
valid_capability-IsBounded s h =
    (ground arith, ground arith, ground arith, λ o. ground arith, λ n. ground arith)

module _ (clean lower : Text → Text) (s : CapabilityScope) where
  normalize_capability-some :
      (n : CapabilityScope)
      → normalize_capability clean lower s ≡ some n
      → (valid_capability (normal_scope clean lower s) ≡ true) × (normal_scope clean lower s ≡ n)
  unfolding normalize_capability
  normalize_capability-some n h =
      elim (Bool-cases (valid_capability (normal_scope clean lower s))) [
        | inl e ↦ (e, ground (arith, e))
        | inr e ↦ absurd (ground (arith, e))
      ]

  -- A scope that `normalizeCapability` accepts is bounded, and its paths and domains increase
  -- strictly.
  pub normalize_capability-IsBounded :
      (n : CapabilityScope)
      → normalize_capability clean lower s ≡ some n
      → IsBounded n × Increasing n.paths × Increasing n.network_domains
  unfolding normal_scope normalize_paths normalize_domains
  normalize_capability-IsBounded n h =
      let (v, e) = normalize_capability-some n h in
      subst (λ c. IsBounded c × Increasing c.paths × Increasing c.network_domains) e
        (
          valid_capability-IsBounded (normal_scope clean lower s) v,
          (sorted_unique_lem _).0,
          (sorted_unique_lem _).0,
        )
