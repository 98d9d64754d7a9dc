-- ===== src/Events/Order.antt =====
-- The order of the event log and its pages (internal/events/store.go).
use auto_ze_agent.Common.{
  Bool, Bool-cases, List, Option, Option-cases, Text, [], any, ap, append-nil, append_assoc, arith,
  false, inl, inr, leb, refl, some, subst, sym, text_eq_comm, ℕ, ◌++◌, ◌+◌, ◌<◌, ◌||◌, ◌∙◌, ◌∷◌,
  ◌≡◌, ◌≤◌, ◌⊎◌,
}
use auto_ze_agent.Kernel.Base.{Time}
use auto_ze_agent.Events.Store.{
  Event, Log, stored, clashes_event, last_sequence, insert_event, appended, append_normal, append,
  normalize,
}

-- The sequences increase from `n`, and no two events share their ID or the version of an aggregate.
abbrev pub IsLog : ℕ → Log → Type 0
IsLog n [] = Unit {0}
IsLog n (e ∷ es) = (n < e.sequence) × (any (clashes_event e) es ≡ false) × IsLog e.sequence es

clashes_event_comm : (d e : Event) → clashes_event d e ≡ clashes_event e d
unfolding clashes_event
clashes_event_comm d e =
    rw
      (
        text_eq_comm e.id d.id,
        text_eq_comm e.aggregate_type d.aggregate_type,
        text_eq_comm e.aggregate_id d.aggregate_id,
      )
      (ground arith)

any-append {ℓ} :
    {A : Type ℓ} (p : A → Bool) (xs ys : List A) → any p (xs ++ ys) ≡ (any p xs || any p ys)
any-append p [] ys = refl
any-append p (x ∷ xs) ys = ground (arith, any-append p xs ys)

IsLog-append :
    (n : ℕ) (log : Log) (new : Event)
    → IsLog n log
    → n < new.sequence
    → last_sequence log < new.sequence
    → any (clashes_event new) log ≡ false
    → IsLog n (log ++ new ∷ [])
unfolding last_sequence
IsLog-append n [] new h k l c = (k, refl, tt)
IsLog-append n (e ∷ es) new (k, d, h) m l c = (
  k,
  any-append (clashes_event e) es (new ∷ []) ∙ ground (arith, d, c, clashes_event_comm e new),
  IsLog-append e.sequence es new h (ground arith) (ground arith) (ground arith),
)

insert_event-IsLog :
    (n : ℕ) (log : Log) (e new : Event)
    → IsLog n log
    → n ≤ last_sequence log
    → insert_event e log ≡ some new
    → IsLog n (log ++ new ∷ [])
unfolding insert_event clashes_event
insert_event-IsLog n log e new h k i =
    elim (Bool-cases (any (clashes_event e) log || leb 9223372036854775808 e.aggregate_version)) [
      | inl c ↦ absurd (ground (arith, c))
      | inr c ↦
          let made : record e { sequence = last_sequence log + 1 } ≡ new = ground (arith, c) in
          let free : any (clashes_event e) log ≡ false = ground (arith, c) in
          subst (λ d. IsLog n (log ++ d ∷ [])) made
            (IsLog-append n log (record e { sequence = last_sequence log + 1 }) h (omega arith)
              (omega arith) (same_clashes log ∙ free))
    ]
  where
    same_clashes :
        (ds : Log)
        → any (clashes_event (record e { sequence = last_sequence log + 1 })) ds
          ≡ any (clashes_event e) ds
    same_clashes [] = refl
    same_clashes (d ∷ ds) = ap (◌||◌ (clashes_event e d)) (same_clashes ds)

-- One call either leaves the log as it is or adds one event at its end.
append_cases :
    (compact : Text → Option Text) (clock : Time) (e : Event) (log : Log)
    → ((append compact clock e log).0 ≡ log)
      ⊎ ((n : Event) × (new : Event) × (insert_event n log ≡ some new)
          × (append compact clock e log ≡ (log ++ new ∷ [], stored new)))
unfolding append append_normal appended
append_cases compact clock e log = elim (Option-cases (normalize compact clock e)) [
  | inl h ↦ inl (rw h refl)
  | inr (n, h) ↦ elim (Option-cases (insert_event n log)) [
    | inl i ↦ inl (rw (h, i) refl)
    | inr (new, i) ↦ inr (n, new, i, rw (h, i) refl)
  ]
]

-- A history of calls, each with the clock that it reads.
unfoldable pub append_all : (Text → Option Text) → List (Time × Event) → Log → Log
append_all compact [] log = log
append_all compact ((clock, e) ∷ calls) log =
    append_all compact calls (append compact clock e log).0

-- Over every history of `Append` calls, the events that are there stay as they are, in front, and
-- in the whole log the sequences increase strictly, and no two events share their ID or the version
-- of one aggregate.
pub append_all-IsLog :
    (compact : Text → Option Text) (calls : List (Time × Event)) (log : Log)
    → IsLog 0 log
    → IsLog 0 (append_all compact calls log)
      × ((new : Log) × (append_all compact calls log ≡ log ++ new))
unfolding append_all
append_all-IsLog compact [] log h = (h, ([], sym (append-nil log)))
append_all-IsLog compact ((clock, e) ∷ calls) log h = elim (append_cases compact clock e log) [
  | inl s ↦ rw s (append_all-IsLog compact calls log h)
  | inr (n, d, i, s) ↦
      let (l, (new, t)) =
        append_all-IsLog compact calls (log ++ d ∷ [])
          (insert_event-IsLog 0 log n d h (omega arith) i) in
      rw s (l, (d ∷ new, t ∙ append_assoc log (d ∷ []) new))
]
