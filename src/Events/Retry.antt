-- ===== src/Events/Retry.antt =====
-- Retries of `Append` (internal/events/store.go).
use auto_ze_agent.Common.{
  Bool, Bool-cases, Option, Option-cases, Text, [], any, ap, arith, eq_ℤ_iff, false, if◌then◌else◌,
  inl, inr, leb, none, not, refl, some, subst, sym, text_eq_refl, true, ℕ, ◌++◌, ◌+◌, ◌==◌, ◌||◌,
  ◌∙◌, ◌∷◌, ◌≡◌, ◌⊎◌,
}
use auto_ze_agent.Kernel.Base.{Time}
use auto_ze_agent.Events.Store.{
  Event, Log, stored, clashes_event, last_sequence, insert_event, resolve, appended, append_normal,
  append, normalize, get_by_id, equivalent,
}

-- A retry is normalised to the same event, but for the time where none is given.
normalize_again :
    (compact : Text → Option Text) (clock clock' : Time) (e n : Event)
    → normalize compact clock e ≡ some n
    → (t : Time) × (normalize compact clock' e ≡ some (record n { occurred_at = t }))
      × ((e.occurred_at == 0) ≡ false → t ≡ n.occurred_at)
unfolding normalize
normalize_again compact clock clock' e n h =
    ((if e.occurred_at == 0 then clock' else e.occurred_at), ground arith, λ f. ground (arith, f))

equivalent_again :
    (e : Event) (s : ℕ) (t : Time) (compare : Bool)
    → (compare ≡ true → t ≡ e.occurred_at)
    → equivalent (record e { sequence = s }) (record e { occurred_at = t }) compare ≡ true
unfolding equivalent
equivalent_again e s t compare h =
    simp (text_eq_refl) (ground (arith, eq_ℤ_iff e.schema_version e.schema_version))

resolve_fresh :
    (e : Event) (s : ℕ) (t : Time) (compare : Bool)
    → (compare ≡ true → t ≡ e.occurred_at)
    → resolve (some (record e { sequence = s })) (record e { occurred_at = t }) compare
      ≡ stored (record e { sequence = s })
unfolding resolve
resolve_fresh e s t compare h = rw (equivalent_again e s t compare h) refl

-- The answer of a refused insertion does not depend on a time that is not compared.
resolve_again :
    (found : Option Event) (n : Event) (t : Time) (compare : Bool)
    → (compare ≡ true → t ≡ n.occurred_at)
    → resolve found (record n { occurred_at = t }) compare ≡ resolve found n compare
unfolding resolve equivalent
resolve_again none n t compare h = refl
resolve_again (some x) n t false h = refl
resolve_again (some x) n t true h = rw (h refl) refl

insert_event_again :
    (n : Event) (t : Time) (log : Log)
    → insert_event n log ≡ none
    → insert_event (record n { occurred_at = t }) log ≡ none
unfolding insert_event clashes_event
insert_event_again n t log h = ground (arith, h)

resolve_stored :
    (found : Option Event) (n s : Event) (compare : Bool)
    → resolve found n compare ≡ stored s
    → found ≡ some s
unfolding resolve
resolve_stored none n s compare h = absurd (cc)
resolve_stored (some x) n s compare h = elim (Bool-cases (equivalent x n compare)) [
  | inl e ↦ ground (arith, e)
  | inr e ↦ absurd (ground (arith, e))
]

module _ (n : Event) where
  taken : (log : Log) (s : ℕ) → any (clashes_event n) (log ++ record n { sequence = s } ∷ []) ≡ true
  unfolding clashes_event
  taken [] s = rw (text_eq_refl n.id) refl
  taken (d ∷ ds) s = ground (arith, taken ds s)

  taken_refused :
      (log : Log) (s : ℕ) → insert_event n (log ++ record n { sequence = s } ∷ []) ≡ none
  unfolding insert_event
  taken_refused log s = rw (taken log s) refl

  found_last :
      (log : Log) (s : ℕ)
      → any (clashes_event n) log ≡ false
      → get_by_id n.id (log ++ record n { sequence = s } ∷ []) ≡ some (record n { sequence = s })
  unfolding clashes_event get_by_id
  found_last [] s h = rw (text_eq_refl n.id) refl
  found_last (d ∷ ds) s h = ground (arith, found_last ds s)

  appended_stored :
      (log log' : Log) (s : Event) (compare : Bool)
      → appended n compare (insert_event n log) log ≡ (log', stored s)
      → ((log' ≡ log ++ s ∷ [])
          × (any (clashes_event n) log ≡ false)
          × (s ≡ record n { sequence = last_sequence log + 1 }))
        ⊎ ((log' ≡ log)
            × (insert_event n log ≡ none)
            × (get_by_id n.id log ≡ some s)
            × (resolve (get_by_id n.id log) n compare ≡ stored s))
  unfolding appended insert_event
  appended_stored log log' s compare h =
      elim (Bool-cases (any (clashes_event n) log || leb 9223372036854775808 n.aggregate_version)) [
        | inl c ↦
            let answer : resolve (get_by_id n.id log) n compare ≡ stored s = ground (arith, c, h) in
            inr (
              ground (arith, c, h),
              rw c refl,
              resolve_stored (get_by_id n.id log) n s compare answer,
              answer,
            )
        | inr c ↦ inl (ground (arith, c, h), ground (arith, c), ground (arith, c, h))
      ]

  again :
      (t : Time) (compare : Bool)
      → (compare ≡ true → t ≡ n.occurred_at)
      → (log log' : Log) (s : Event)
      → appended n compare (insert_event n log) log ≡ (log', stored s)
      → appended
          (record n { occurred_at = t })
          compare
          (insert_event (record n { occurred_at = t }) log')
          log'
        ≡ (log', stored s)
  unfolding appended
  again t compare same log log' s h = elim (appended_stored log log' s compare h) [
    | inl (l, free, made) ↦
        let full : insert_event n log' ≡ none = rw (l, made) (taken_refused log _) in
        let found : get_by_id n.id log' ≡ some s = rw (l, made) (found_last log _ free) in
        rw (insert_event_again n t log' full, found)
          (ap (λ r. (log', r))
            (subst (λ x. resolve (some x) (record n { occurred_at = t }) compare ≡ stored x)
              (sym made) (resolve_fresh n (last_sequence log + 1) t compare same)))
    | inr (l, full, found, answer) ↦
        rw (l, insert_event_again n t log full)
          (ap (λ r. (log, r)) (resolve_again (get_by_id n.id log) n t compare same ∙ answer))
  ]

-- Appending an event again after it was stored returns the same stored event and changes nothing.
pub append-retry :
    (compact : Text → Option Text) (clock clock' : Time) (e s : Event) (log log' : Log)
    → append compact clock e log ≡ (log', stored s)
    → append compact clock' e log' ≡ (log', stored s)
unfolding append append_normal
append-retry compact clock clock' e s log log' h = elim (Option-cases (normalize compact clock e)) [
  | inl k ↦ absurd (ground (arith, k, h))
  | inr (n, k) ↦
      let compare = not (e.occurred_at == 0) in
      let (t, k', same) = normalize_again compact clock clock' e n k in
      rw k' (again n t compare (λ c. same (ground (arith, c))) log log' s (ground (arith, k, h)))
]
