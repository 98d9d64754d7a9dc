-- ===== src/Scheduler/Advance.antt =====
-- internal/scheduler/store.go: durations, and the next time that a job is due.
use auto_ze_agent.Common.{
  Bool, Bool-cases, Option, Text, ap, arith, codes, false, if◌then◌else◌, inl, inr, le→ltb-false,
  ltb, neg_part, negsuc, none, pos, pos_part, refl, some, suc, sym, text_eq, text_eq_iff, true,
  wrap_i64, zero, ℕ, ℤ, ◌*◌, ◌+◌, ◌-◌, ◌<◌, ◌∙◌, ◌≡◌, ◌≤◌, ◌⊎◌,
}
use auto_ze_agent.Kernel.Base.{Time}

-- `time.Duration(n) * time.Second`, which wraps around in an `int64` of nanoseconds.
unfoldable pub seconds : ℕ → ℤ
seconds n = wrap_i64 (pos (n * 1000000000))

unfoldable pub add_time : Time → ℤ → Time
add_time t d = t + pos_part d - neg_part d

-- `for !next.After(now) { next = next.Add(interval) }`, `none` where it has not ended.
unfoldable pub skip_missed : ℕ → Time → ℤ → Time → Option Time
skip_missed zero now interval next = none
skip_missed (suc fuel) now interval next =
    let rest = skip_missed fuel now interval (add_time next interval) in
    if ltb now next then some next else rest

-- `advanceNextRun`.
unfoldable pub advance_next_run : ℕ → Time → Time → ℤ → Text → Option Time
advance_next_run fuel scheduled_at now interval policy =
    let next = add_time scheduled_at interval in
    if text_eq policy (codes "catch_up")
    then some next
    else if text_eq policy (codes "skip")
    then skip_missed fuel now interval next
    else if ltb next now
    then some (add_time now interval)
    else some next

-- A slot of a job: some intervals after the first time.
abbrev pub Slot : Time → ℕ → Time → Type 0
Slot first d t = (k : ℕ) × (t ≡ first + k * d)

skip_missed_step :
    (fuel now d next : ℕ)
    → ltb now next ≡ false
    → skip_missed (suc fuel) now (pos d) next ≡ skip_missed fuel now (pos d) (next + d)
unfolding skip_missed add_time
skip_missed_step fuel now d next h = rw h (ap (skip_missed fuel now (pos d)) (omega arith))

-- Where the loop ends.
abbrev pub Skipped : ℕ → Time → Time → Time → Type 0
Skipped d now next r = (now < r) × ((r ≡ next) ⊎ (r ≤ now + d)) × Slot next d r

skip_missed_lem :
    (fuel now d next : ℕ)
    → 0 < d
    → now < next + fuel
    → (r : Time) × (skip_missed (suc fuel) now (pos d) next ≡ some r) × Skipped d now next r
unfolding skip_missed
skip_missed_lem zero now d next p h =
    (next, ground (arith, h), (omega (arith, h), inl refl, (0, omega arith)))
skip_missed_lem (suc fuel) now d next p h = elim (Bool-cases (ltb now next)) [
  | inl late ↦ (next, rw late refl, (ground (arith, late), inl refl, (0, omega arith)))
  | inr early ↦
      let (r, e, (after, near, (k, slot))) =
        skip_missed_lem fuel now d (next + d) p (omega (arith, h, p)) in
      let below : next ≤ now = ground (arith, early) in
      let near' : r ≤ now + d = ground (arith, near, below) in
      (
        r,
        skip_missed_step (suc fuel) now d next early ∙ e,
        (after, inr near', (suc k, slot ∙ grind arith)),
      )
]

add_time_pos : (t d : ℕ) → add_time t (pos d) ≡ t + d
unfolding add_time
add_time_pos t d = omega arith

-- The result under each policy.
by_policy : Bool → Bool → ℕ → Time → ℕ → Time → Option Time
by_policy true skip fuel now d next = some next
by_policy false true fuel now d next = skip_missed fuel now (pos d) next
by_policy false false fuel now d next = if ltb next now then some (now + d) else some next

advance_next_run-by_policy :
    (fuel scheduled_at now d : ℕ) (policy : Text)
    → advance_next_run fuel scheduled_at now (pos d) policy
      ≡ by_policy
          (text_eq policy (codes "catch_up"))
          (text_eq policy (codes "skip"))
          fuel
          now
          d
          (scheduled_at + d)
unfolding advance_next_run by_policy
advance_next_run-by_policy fuel scheduled_at now d policy =
    rw (add_time_pos scheduled_at d, add_time_pos now d)
      (by_tests (text_eq policy (codes "catch_up")) (text_eq policy (codes "skip")))
  where
    by_tests :
        (c s : Bool)
        → (if c
            then some (scheduled_at + d)
            else if s
            then skip_missed fuel now (pos d) (scheduled_at + d)
            else if ltb (scheduled_at + d) now
            then some (now + d)
            else some (scheduled_at + d))
          ≡ by_policy c s fuel now d (scheduled_at + d)
    by_tests true s = refl
    by_tests false true = refl
    by_tests false false = refl

no_skip : (policy : Text) → text_eq policy (codes "skip") ≡ false → policy ≡ codes "skip" → ⊥
no_skip policy h e = ground (arith, text_eq_iff policy (codes "skip"), e, h)

no_catch_up :
    (policy : Text) → text_eq policy (codes "catch_up") ≡ false → policy ≡ codes "catch_up" → ⊥
no_catch_up policy h e = ground (arith, text_eq_iff policy (codes "catch_up"), e, h)

other_policy : codes "skip" ≡ codes "catch_up" → ⊥
other_policy e = cc

Skipped-lt :
    (scheduled_at d now r : ℕ) → 0 < d → Skipped d now (scheduled_at + d) r → scheduled_at < r
Skipped-lt scheduled_at d now r p (after, near, (k, slot)) = grind (arith, slot, p)

-- With a positive interval the next time is found, and lies after the time that the job was due.
-- Under the policy `skip` it is after now, a whole number of intervals on, and no more than one
-- interval from now if it is not the first of these; under `catch_up` it is one interval on.
pub advance_next_run_lem :
    (fuel scheduled_at now d : ℕ) (policy : Text)
    → 0 < d
    → now < scheduled_at + d + fuel
    → (r : Time) × (advance_next_run (suc fuel) scheduled_at now (pos d) policy ≡ some r)
      × (scheduled_at < r)
      × (policy ≡ codes "skip" → Skipped d now (scheduled_at + d) r)
      × (policy ≡ codes "catch_up" → r ≡ scheduled_at + d)
unfolding by_policy
advance_next_run_lem fuel scheduled_at now d policy p h =
    rw (advance_next_run-by_policy (suc fuel) scheduled_at now d policy)
      (elim (Bool-cases (text_eq policy (codes "catch_up"))) [
        | inl c ↦
            let is = (text_eq_iff policy (codes "catch_up")).0 c in
            (
              scheduled_at + d,
              rw c refl,
              omega (arith, p),
              (λ e. absurd (other_policy (sym e ∙ is))),
              λ e. refl,
            )
        | inr c ↦ elim (Bool-cases (text_eq policy (codes "skip"))) [
          | inl s ↦
              let is = (text_eq_iff policy (codes "skip")).0 s in
              let (r, e, sk) = skip_missed_lem fuel now d (scheduled_at + d) p h in
              (
                r,
                rw (c, s) e,
                Skipped-lt scheduled_at d now r p sk,
                (λ e. sk),
                λ e. absurd (other_policy (sym is ∙ e)),
              )
          | inr s ↦ (
            (if ltb (scheduled_at + d) now then now + d else scheduled_at + d),
            rw (c, s) (ground arith),
            ground (arith, p),
            (λ e. absurd (no_skip policy s e)),
            λ e. absurd (no_catch_up policy c e),
          )
        ]
      ])

skip_missed-none : (fuel now m next : ℕ) → next ≤ now → skip_missed fuel now (negsuc m) next ≡ none
unfolding skip_missed add_time
skip_missed-none zero now m next h = refl
skip_missed-none (suc fuel) now m next h =
    rw (le→ltb-false now next h) (skip_missed-none fuel now m (next + 0 - suc m) (omega (arith, h)))

seconds_negative : (n : ℕ) → 9223372036 < n → n < 18446744074 → (m : ℕ) × (seconds n ≡ negsuc m)
unfolding seconds
seconds_negative n lo hi = (18446744073709551615 - n * 1000000000, ground (arith, lo, hi))

-- An interval of 9223372037 to 18446744073 seconds is negative as an `int64` of nanoseconds: for a
-- job that is due the loop of the policy `skip` never ends.
pub advance_next_run-never_ends :
    (fuel scheduled_at now n : ℕ)
    → 9223372036 < n
    → n < 18446744074
    → scheduled_at ≤ now
    → advance_next_run fuel scheduled_at now (seconds n) (codes "skip") ≡ none
unfolding advance_next_run add_time text_eq
advance_next_run-never_ends fuel scheduled_at now n lo hi due =
    let (m, e) = seconds_negative n lo hi in
    rw e (skip_missed-none fuel now m (scheduled_at + 0 - suc m) (omega (arith, due)))
