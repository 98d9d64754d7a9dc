-- ===== src/Events/Chain.antt =====
-- Chains of upcasters (internal/events/upcast.go).
use auto_ze_agent.Common.{
  Bool, Bool-cases, Option, Text, ap, arith, if◌then◌else◌, inl, inr, leb_ℤ, ltb_ℤ, none, pos, refl,
  some, subst, suc, sym, true, zero, ℕ, ℤ, ◌+◌, ◌-◌, ◌<◌, ◌↔◌, ◌≡◌, ◌≤◌,
}
use auto_ze_agent.Events.Store.{Event}
use auto_ze_agent.Events.Upcast.{
  Upcaster, Registry, Upcasted, done, failed, checked, upcast_once, upcast_loop, upcast_to,
  with_upcast, invalid_schema_version, future_schema,
}

module _ (valid : Text → Bool) (upcasters : ℤ → Option Upcaster) where
  -- A payload of one version leads to a payload of a later version by adjacent steps, each by the
  -- upcaster of its version and with a valid result.
  pub data Migrates : ℕ → Text → ℕ → Text → Type 0 where
    here : (v : ℕ) (p : Text) → Migrates v p v p
    step :
        {v w : ℕ} {p q r : Text} (f : Upcaster)
        → upcasters (pos v) ≡ some f
        → f p ≡ some q
        → valid q ≡ true
        → Migrates (suc v) q w r
        → Migrates v p w r

  upcast_once_sound :
      (v : ℕ) (p q : Text)
      → upcast_once valid (upcasters (pos v)) p ≡ done q
      → (f : Upcaster) × (upcasters (pos v) ≡ some f) × (f p ≡ some q) × (valid q ≡ true)
  unfolding upcast_once checked
  upcast_once_sound v p q h = by_upcaster (upcasters (pos v)) refl h
    where
      by_result :
          (f : Upcaster) (r : Option Text)
          → upcasters (pos v) ≡ some f
          → f p ≡ r
          → checked valid r ≡ done q
          → (f : Upcaster) × (upcasters (pos v) ≡ some f) × (f p ≡ some q) × (valid q ≡ true)
      by_result f none e k h = absurd (cc)
      by_result f (some r) e k h = elim (Bool-cases (valid r)) [
        | inl t ↦ (f, e, ground (arith, k, t, h), ground (arith, t, h))
        | inr t ↦ absurd (ground (arith, t, h))
      ]

      by_upcaster :
          (u : Option Upcaster)
          → upcasters (pos v) ≡ u
          → upcast_once valid u p ≡ done q
          → (f : Upcaster) × (upcasters (pos v) ≡ some f) × (f p ≡ some q) × (valid q ≡ true)
      by_upcaster none e h = absurd (cc)
      by_upcaster (some f) e h = by_result f (f p) e refl h

  upcast_once_complete :
      (v : ℕ) (p q : Text) (f : Upcaster)
      → upcasters (pos v) ≡ some f
      → f p ≡ some q
      → valid q ≡ true
      → upcast_once valid (upcasters (pos v)) p ≡ done q
  unfolding upcast_once checked
  upcast_once_complete v p q f e k t = rw (e, k, t) refl

  upcast_loop_sound :
      (rounds v : ℕ) (p r : Text)
      → upcast_loop valid upcasters rounds v p ≡ done r
      → Migrates v p (v + rounds) r
  unfolding upcast_loop
  upcast_loop_sound zero v p r h =
      subst (λ w. Migrates v p w r) (omega arith) (subst (Migrates v p v) (ground arith) (here v p))
  upcast_loop_sound (suc rounds) v p r h =
      by_once (upcast_once valid (upcasters (pos v)) p) refl h
        (λ next k. upcast_loop_sound rounds (suc v) next r k)
    where
      by_once :
          (o : Upcasted Text)
          → upcast_once valid (upcasters (pos v)) p ≡ o
          → (elim o [
            | done next ↦ upcast_loop valid upcasters rounds (suc v) next
            | failed e ↦ failed e
          ])
            ≡ done r
          → ((next : Text)
              → upcast_loop valid upcasters rounds (suc v) next ≡ done r
              → Migrates (suc v) next (suc v + rounds) r)
          → Migrates v p (v + suc rounds) r
      by_once (failed e) k h further = absurd (cc)
      by_once (done next) k h further =
          let (f, e, t, ok) = upcast_once_sound v p next k in
          subst (λ w. Migrates v p w r) (omega arith) (step f e t ok (further next h))

  Migrates-le : {v w : ℕ} {p r : Text} → Migrates v p w r → v ≤ w
  Migrates-le (here v p) = omega arith
  Migrates-le (step f e k t m) = omega (arith, Migrates-le m)

  upcast_loop_complete :
      {v w : ℕ} {p r : Text} → Migrates v p w r → upcast_loop valid upcasters (w - v) v p ≡ done r
  unfolding upcast_loop
  upcast_loop_complete (here v p) = let e : v - v ≡ 0 = omega arith in rw e refl
  upcast_loop_complete {v = v} {w = w} (step f e k t m) =
      let n : w - v ≡ suc (w - suc v) = omega (arith, Migrates-le m) in
      rw (n, upcast_loop, upcast_once_complete v _ _ f e k t) (upcast_loop_complete m)

with_upcast_done :
    (valid : Text → Bool) (e e' : Event) (target : ℤ) (o : Upcasted Text)
    → with_upcast valid e target o ≡ done e'
    → (p : Text) × (o ≡ done p) × (e' ≡ record e { payload = p; schema_version = target })
unfolding with_upcast
with_upcast_done valid e e' target (failed error) h = absurd (cc)
with_upcast_done valid e e' target (done p) h = (p, refl, ground (arith, h))

-- With a type configured at `target`, upcasting an event succeeds exactly when its version is
-- positive and not above the target and a chain of adjacent steps leads its payload there; the
-- result is the event with the payload at the end of the chain and the target version.
pub upcast_to_iff :
    (valid : Text → Bool) (r : Registry) (e e' : Event) (version target : ℕ)
    → e.schema_version ≡ pos version
    → (upcast_to valid r e (pos target) ≡ done e') ↔ (
        (0 < version)
        × (version ≤ target)
        × ((p : Text) × Migrates valid (r.upcaster e.kind) version e.payload target p
            × (e' ≡ record e { payload = p; schema_version = pos target })))
unfolding upcast_to with_upcast
upcast_to_iff valid r e e' version target h = rw h (sound, complete)
  where
    run : Upcasted Text
    run = upcast_loop valid (r.upcaster e.kind) (target - version) version e.payload

    sound :
        (if leb_ℤ (pos version) (pos 0)
            then failed invalid_schema_version
            else if ltb_ℤ (pos target) (pos version)
            then failed future_schema
            else with_upcast valid e (pos target) run)
          ≡ done e'
        → (0 < version)
          × (version ≤ target)
          × ((p : Text) × Migrates valid (r.upcaster e.kind) version e.payload target p
              × (e' ≡ record e { payload = p; schema_version = pos target }))
    sound g =
        let low : 0 < version = ground arith in
        let high : version ≤ target = ground arith in
        let inner : with_upcast valid e (pos target) run ≡ done e' = ground (arith, g, low, high) in
        let (p, k, made) = with_upcast_done valid e e' (pos target) run inner in
        let chain =
          upcast_loop_sound valid (r.upcaster e.kind) (target - version) version e.payload p k in
        (
          low,
          high,
          (
            p,
            subst (λ w. Migrates valid (r.upcaster e.kind) version e.payload w p) (omega arith)
                chain,
            made,
          ),
        )

    complete :
        (0 < version)
          × (version ≤ target)
          × ((p : Text) × Migrates valid (r.upcaster e.kind) version e.payload target p
              × (e' ≡ record e { payload = p; schema_version = pos target }))
        → (if leb_ℤ (pos version) (pos 0)
            then failed invalid_schema_version
            else if ltb_ℤ (pos target) (pos version)
            then failed future_schema
            else with_upcast valid e (pos target) run)
          ≡ done e'
    complete (low, high, (p, chain, made)) =
        let done_run : run ≡ done p = upcast_loop_complete valid (r.upcaster e.kind) chain in
        let inner : with_upcast valid e (pos target) run ≡ done e' =
          rw done_run (unfold with_upcast in ap done (sym made)) in
        ground (arith, low, high, inner)
