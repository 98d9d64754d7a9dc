-- ===== src/Stream/Flights.antt =====
-- The hub with its emissions as steps of their own, in any interleaving
-- (internal/modelstream/hub.go).
use auto_ze_agent.Common.{
  Bool, List, Option, Option-cases, Text, [], ap, append-nil, append_assoc, arith, inl, inr, map,
  none, refl, some, subst, sym, zero, suc, ℕ, ◌++◌, ◌∙◌, ◌∷◌, ◌≡◌,
}
use mathlib.Core.List.{Perm, perm_middle}
use mathlib.Core.List.Perm
use auto_ze_agent.Stream.Hub.{Emission, Envelope, Hub, emit, new_hub, next_envelope}
use auto_ze_agent.Stream.Batches.{
  Call, run_call, batch_text, sent_text, call_text, IsKeyed, sent_text-append,
}
use auto_ze_agent.Stream.Coalesce.{run_call-Moved, new_hub-IsKeyed}

-- A flight is what one call has still to emit.
pub record Traffic : Type 0 where
  pub hub : Hub
  pub flights : List (List Emission)
  pub sent : List Envelope

-- A call takes the lock, or the flight at this place makes its next emission.
pub data Step : Type 0 where
  calls : Call → Step
  emits : ℕ → Step

-- The next emission of the flight at a place, and what is left.
unfoldable pub pick : ℕ → List (List Emission) → Option (Emission × List (List Emission))
pick n [] = none
pick zero ([] ∷ fs) = none
pick zero ((e ∷ es) ∷ fs) = some (e, es ∷ fs)
pick (suc n) (f ∷ fs) = elim (pick n fs) [ none ↦ none | some (e, rest) ↦ some (e, f ∷ rest) ]

unfoldable pub emit_next : Traffic → Option (Emission × List (List Emission)) → Traffic
emit_next x none = x
emit_next x (some (e, rest)) =
    let (hub, env) = emit e x.hub in record { hub = hub; flights = rest; sent = x.sent ++ env ∷ [] }

unfoldable pub run_step : Step → Traffic → Traffic
run_step (calls c) x =
    let (hub, es) = run_call c x.hub in record x { hub = hub; flights = x.flights ++ es ∷ [] }
run_step (emits n) x = emit_next x (pick n x.flights)

unfoldable pub run_steps : List Step → Traffic → Traffic
run_steps [] x = x
run_steps (c ∷ cs) x = run_steps cs (run_step c x)

abbrev pub new_traffic : Traffic
new_traffic = record { hub = new_hub; flights = []; sent = [] }

-- What the calls of a history publish under a key, in their order.
abbrev pub published_text : Bool → Text → List Step → Text
published_text thinking key [] = []
published_text thinking key (calls c ∷ cs) =
    call_text thinking key c ++ published_text thinking key cs
published_text thinking key (emits n ∷ cs) = published_text thinking key cs

-- The emission that an envelope carries.
abbrev pub carried : Envelope → Emission
carried env = record {
  session_id = env.session_id;
  task_id = env.task_id;
  run_id = env.run_id;
  event = env.event;
}

unfoldable pub all_of : List (List Emission) → List Emission
all_of [] = []
all_of (f ∷ fs) = f ++ all_of fs

-- What was sent, and what is in flight.
abbrev pub emissions : Traffic → List Emission
emissions x = map carried x.sent ++ all_of x.flights

-- The emissions so far are those of `taken` in some order, and the texts of these, in their order,
-- with what is pending behind them, are the texts given.
abbrev pub IsTaken : (Bool → Text → Text) → Traffic → List Emission → Type 0
IsTaken published x taken =
    Perm taken (emissions x)
    × ((thinking : Bool) (key : Text)
        → sent_text thinking key taken ++ batch_text thinking (x.hub.pending key)
          ≡ published thinking key)

sent-more :
    (sent : List Envelope) (env : Envelope)
    → map carried (sent ++ env ∷ []) ≡ map carried sent ++ carried env ∷ []
sent-more [] env = refl
sent-more (d ∷ sent) env = ap (◌∷◌ (carried d)) (sent-more sent env)

all_of-one : (f : List Emission) → all_of (f ∷ []) ≡ f
unfolding all_of
all_of-one f = append-nil f

all_of-append : (fs gs : List (List Emission)) → all_of (fs ++ gs) ≡ all_of fs ++ all_of gs
unfolding all_of
all_of-append [] gs = refl
all_of-append (f ∷ fs) gs =
    ap (◌++◌ f) (all_of-append fs gs) ∙ sym (append_assoc f (all_of fs) (all_of gs))

pick-Perm :
    (n : ℕ) (fs rest : List (List Emission)) (e : Emission)
    → pick n fs ≡ some (e, rest)
    → Perm (e ∷ all_of rest) (all_of fs)
unfolding pick all_of
pick-Perm n [] rest e h = absurd (ground (arith, h))
pick-Perm zero ([] ∷ fs) rest e h = absurd (ground (arith, h))
pick-Perm zero ((d ∷ es) ∷ fs) rest e h =
    let one : d ≡ e = ground (arith, h) in
    let others : es ∷ fs ≡ rest = ground (arith, h) in
    subst (λ y. Perm (y ∷ all_of rest) ((d ∷ es) ++ all_of fs)) one
      (subst (λ y. Perm (d ∷ all_of y) ((d ∷ es) ++ all_of fs)) others (Perm.refl _))
pick-Perm (suc n) (f ∷ fs) rest e h = elim (Option-cases (pick n fs)) [
  | inl k ↦ absurd (ground (arith, rw k at h))
  | inr ((d, others), k) ↦
      let one : d ≡ e = ground (arith, rw k at h) in
      let all : f ∷ others ≡ rest = ground (arith, rw k at h) in
      let found = pick-Perm n fs others d k in
      subst (λ y. Perm (y ∷ all_of rest) (f ++ all_of fs)) one
        (subst (λ y. Perm (d ∷ all_of y) (f ++ all_of fs)) all
          (Perm.trans (Perm.symm (perm_middle f (all_of others))) (Perm.append_left f found)))
]

-- A step takes what its call emits, or nothing.
abbrev Taken : Step → Traffic → Traffic → Type 0
Taken c x y =
    (es : List Emission) × (Perm (emissions x ++ es) (emissions y)
      × (IsKeyed y.hub
          × ((thinking : Bool) (key : Text)
              → sent_text thinking key es ++ batch_text thinking (y.hub.pending key)
                ≡ batch_text thinking (x.hub.pending key) ++ published_text thinking key (c ∷ []))))

emit_next-Taken :
    (n : ℕ) (x : Traffic) → IsKeyed x.hub → Taken (emits n) x (emit_next x (pick n x.flights))
unfolding emit_next emit
emit_next-Taken n x keyed = elim (Option-cases (pick n x.flights)) [
  | inl e ↦ rw e (
    [],
    (
      subst (λ y. Perm y (emissions x)) (sym (append-nil (emissions x))) (Perm.refl _),
      (keyed, λ thinking key. sym (append-nil _)),
    ),
  )
  | inr ((e, rest), h) ↦ rw h (
    [],
    (
      subst (λ y. Perm y (map carried (x.sent ++ next_envelope x.hub e ∷ []) ++ all_of rest))
          (sym (append-nil (emissions x)))
          (subst (λ y. Perm (emissions x) y)
            (sym (
              ap (λ (l : List Emission). l ++ all_of rest)
                (sent-more x.sent (next_envelope x.hub e))
              ∙ append_assoc (map carried x.sent) (e ∷ []) (all_of rest)))
            (Perm.append_left (map carried x.sent) (Perm.symm (pick-Perm n x.flights rest e h)))),
      (keyed, λ thinking key. sym (append-nil _)),
    ),
  )
]

run_step-Taken : (c : Step) (x : Traffic) → IsKeyed x.hub → Taken c x (run_step c x)
unfolding run_step
run_step-Taken (emits n) x keyed = emit_next-Taken n x keyed
run_step-Taken (calls c) x keyed =
    let m = run_call-Moved c x.hub keyed in
    let es = (run_call c x.hub).1 in
    (
      es,
      (
        subst (λ y. Perm (emissions x ++ es) (map carried x.sent ++ y))
            (sym (all_of-append x.flights (es ∷ []) ∙ ap (◌++◌ (all_of x.flights)) (all_of-one es)))
            (subst (λ y. Perm y (map carried x.sent ++ (all_of x.flights ++ es)))
              (sym (append_assoc (map carried x.sent) (all_of x.flights) es)) (Perm.refl _)),
        (
          m.keyed,
          λ thinking key.
              m.balance thinking key
              ∙ ap (◌++◌ (batch_text thinking (x.hub.pending key)))
                  (sym (append-nil (call_text thinking key c))),
        ),
      ),
    )

published-cons :
    (thinking : Bool) (key : Text) (c : Step) (cs : List Step)
    → published_text thinking key (c ∷ cs)
      ≡ published_text thinking key (c ∷ []) ++ published_text thinking key cs
published-cons thinking key (calls c) cs =
    sym (
      ap (λ (l : Text). l ++ published_text thinking key cs)
        (append-nil (call_text thinking key c)))
published-cons thinking key (emits n) cs = refl

run_steps_from-IsTaken :
    (cs : List Step) (x : Traffic) (taken : List Emission) (before : Bool → Text → Text)
    → IsKeyed x.hub
    → IsTaken before x taken
    → (all : List Emission) × IsTaken
        (λ thinking key. before thinking key ++ published_text thinking key cs)
        (run_steps cs x)
        all
unfolding run_steps
run_steps_from-IsTaken [] x taken before keyed (p, balance) =
    (taken, (p, λ thinking key. balance thinking key ∙ sym (append-nil _)))
run_steps_from-IsTaken (c ∷ cs) x taken before keyed (p, balance) =
    let (es, (q, (keyed', step))) = run_step-Taken c x keyed in
    let now = λ (thinking : Bool) (key : Text).
      before thinking key ++ published_text thinking key (c ∷ []) in
    let (all, (p', balance')) = run_steps_from-IsTaken cs (run_step c x) (taken ++ es) now keyed' (
      Perm.trans (Perm.append_right es p) q,
      λ thinking key.
          ap (λ (l : Text). l ++ batch_text thinking ((run_step c x).hub.pending key))
            (sent_text-append thinking key taken es)
          ∙ append_assoc (sent_text thinking key taken) (sent_text thinking key es) _
          ∙ ap (◌++◌ (sent_text thinking key taken)) (step thinking key)
          ∙ sym (append_assoc (sent_text thinking key taken) _ _)
          ∙ ap (λ (l : Text). l ++ published_text thinking key (c ∷ [])) (balance thinking key),
    ) in
    (
      all,
      (
        p',
        λ thinking key.
            balance' thinking key
            ∙ append_assoc (before thinking key) _ (published_text thinking key cs)
            ∙ ap (◌++◌ (before thinking key)) (sym (published-cons thinking key c cs)),
      ),
    )

-- Over every history of a new hub, in which the calls and the timers overlap in any order, what was
-- sent and what is still in flight are a list of emissions in some order, each once. In this list
-- the texts of a key, of the content and of the thinking, with what is pending under the key behind
-- them, are all those published under it, in their order and each once.
pub run_steps-IsTaken :
    (cs : List Step)
    → (taken : List Emission) × IsTaken
        (λ thinking key. published_text thinking key cs)
        (run_steps cs new_traffic)
        taken
run_steps-IsTaken cs =
    run_steps_from-IsTaken cs new_traffic [] (λ thinking key. []) new_hub-IsKeyed
      (unfold all_of in Perm.refl [], λ thinking key. unfold new_hub in refl)
