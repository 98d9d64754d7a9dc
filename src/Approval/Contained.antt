-- ===== src/Approval/Contained.antt =====
-- When the step of a plan contains a scope, apart from the code (internal/approval/grant.go).
use auto_ze_agent.Common.{
  ◌⊎◌, eq_ℤ_iff, Bool, Bool-cases, List, Text, [], any, arith, codes, false, inl, inr, is_blank,
  refl, text_eq_iff, true, ◌&&◌, ◌||◌, ◌∷◌, ◌≡◌, ==_iff, is_nil,
}
use auto_ze_agent.Approval.Match.{CapabilityScope, texts_eq}
use auto_ze_agent.Approval.Document.{PlanDocument, StepScope}
use auto_ze_agent.Approval.Records.{one_domain, same_flag, scope_eq}
use auto_ze_agent.Approval.Issue.{http_get_domain_narrowing, plan_contains_scope}

-- An element of the list has the property.
unfoldable pub Has {ℓ} : {A : Type ℓ} → (A → Type 0) → List A → Type 0
Has P [] = ⊥
Has P (x ∷ xs) = P x ⊎ Has P xs

-- One domain that is not blank.
abbrev pub IsOneDomain : List Text → Type 0
IsOneDomain ds = (d : Text) × ((ds ≡ d ∷ []) × (is_blank d ≡ false))

-- Both scopes are of `http_get` with the same limits; the one of the plan names no domain, and the
-- other names one. Nothing is said of the paths, the command and the arguments.
abbrev pub Narrows : CapabilityScope → CapabilityScope → Type 0
Narrows c s =
    (c.capability ≡ codes "http_get")
    × (s.capability ≡ codes "http_get")
    × (c.network_domains ≡ [])
    × IsOneDomain s.network_domains
    × (c.one_time ≡ s.one_time)
    × (c.max_calls ≡ s.max_calls)
    × (c.max_duration_ms ≡ s.max_duration_ms)

-- A step of this ID has the scope itself, or a scope of `http_get` that it narrows.
abbrev pub Contains : PlanDocument → Text → CapabilityScope → Type 0
Contains p step_id s =
    Has
      (λ (step : StepScope).
        (step.step_id ≡ step_id) × Has (λ c. (c ≡ s) ⊎ Narrows c s) step.capabilities)
      p.steps

any-Has {ℓ} :
    {A : Type ℓ} (p : A → Bool) (P : A → Type 0) (xs : List A)
    → ((x : A) → p x ≡ true → P x)
    → any p xs ≡ true
    → Has P xs
unfolding Has
any-Has p P [] f h = absurd (cc)
any-Has p P (x ∷ xs) f h = elim (Bool-cases (p x)) [
  | inl e ↦ inl (f x e)
  | inr e ↦ inr (any-Has p P xs f (ground (arith, e, h)))
]

both : (a b : Bool) → (a && b) ≡ true → (a ≡ true) × (b ≡ true)
both true b h = (refl, h)
both false b h = absurd (cc)

texts_eq-same : (ss ts : List Text) → texts_eq ss ts ≡ true → ss ≡ ts
unfolding texts_eq
texts_eq-same [] [] h = refl
texts_eq-same [] (t ∷ ts) h = absurd (cc)
texts_eq-same (s ∷ ss) [] h = absurd (cc)
texts_eq-same (s ∷ ss) (t ∷ ts) h =
    let (a, b) = both _ _ h in
    let x : s ≡ t = (text_eq_iff s t).0 a in let y : ss ≡ ts = texts_eq-same ss ts b in cc

same_flag-same : (a b : Bool) → same_flag a b ≡ true → a ≡ b
same_flag-same true b h = ground (arith, h)
same_flag-same false b h = ground (arith, h)

one_domain-IsOneDomain : (ds : List Text) → one_domain ds ≡ true → IsOneDomain ds
one_domain-IsOneDomain [] h = absurd (cc)
one_domain-IsOneDomain (d ∷ []) h = (d, (refl, ground (arith, h)))
one_domain-IsOneDomain (d ∷ e ∷ ds) h = absurd (cc)

is_nil-nil : (ts : List Text) → is_nil ts ≡ true → ts ≡ []
is_nil-nil [] h = refl
is_nil-nil (t ∷ ts) h = absurd (cc)

scope_eq-same : (a b : CapabilityScope) → scope_eq a b ≡ true → a ≡ b
unfolding scope_eq
scope_eq-same a b h =
    let (h1, r1) = both _ _ h in
    let (h2, r2) = both _ _ r1 in
    let (h3, r3) = both _ _ r2 in
    let (h4, r4) = both _ _ r3 in
    let (h5, r5) = both _ _ r4 in
    let (h6, r6) = both _ _ r5 in
    let (h7, h8) = both _ _ r6 in
    let capability : a.capability ≡ b.capability = (text_eq_iff _ _).0 h1 in
    let paths : a.paths ≡ b.paths = texts_eq-same _ _ h2 in
    let command : a.command ≡ b.command = (text_eq_iff _ _).0 h3 in
    let arguments : a.arguments ≡ b.arguments = texts_eq-same _ _ h4 in
    let domains : a.network_domains ≡ b.network_domains = texts_eq-same _ _ h5 in
    let duration : a.max_duration_ms ≡ b.max_duration_ms = (eq_ℤ_iff _ _).0 h6 in
    let calls : a.max_calls ≡ b.max_calls = (==_iff _ _).0 h7 in
    let once : a.one_time ≡ b.one_time = same_flag-same _ _ h8 in
    λ i. record {
      capability = capability i;
      paths = paths i;
      command = command i;
      arguments = arguments i;
      network_domains = domains i;
      max_duration_ms = duration i;
      max_calls = calls i;
      one_time = once i;
    }

narrowing-Narrows : (c s : CapabilityScope) → http_get_domain_narrowing c s ≡ true → Narrows c s
unfolding http_get_domain_narrowing
narrowing-Narrows c s h =
    let (h1, r1) = both _ _ h in
    let (h2, r2) = both _ _ r1 in
    let (h3, r3) = both _ _ r2 in
    let (h4, r4) = both _ _ r3 in
    let (h5, r5) = both _ _ r4 in
    let (h6, h7) = both _ _ r5 in
    (
      (text_eq_iff _ _).0 h1,
      (text_eq_iff _ _).0 h2,
      is_nil-nil _ h3,
      one_domain-IsOneDomain _ h4,
      same_flag-same _ _ h5,
      (==_iff _ _).0 h6,
      (eq_ℤ_iff _ _).0 h7,
    )

candidate :
    (s c : CapabilityScope)
    → (scope_eq c s || http_get_domain_narrowing c s) ≡ true
    → (c ≡ s) ⊎ Narrows c s
candidate s c h = elim (Bool-cases (scope_eq c s)) [
  | inl e ↦ inl (scope_eq-same c s e)
  | inr e ↦ inr (narrowing-Narrows c s (ground (arith, e, h)))
]

pub plan_contains_scope-Contains :
    (p : PlanDocument) (step_id : Text) (s : CapabilityScope)
    → plan_contains_scope p step_id s ≡ true
    → Contains p step_id s
unfolding plan_contains_scope
plan_contains_scope-Contains p step_id s h =
    any-Has _ _ p.steps
      (λ step e.
        let (i, c) = both _ _ e in
        ((text_eq_iff step.step_id step_id).0 i, any-Has _ _ step.capabilities (candidate s) c))
      h
