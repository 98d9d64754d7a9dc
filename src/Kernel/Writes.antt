-- ===== src/Kernel/Writes.antt =====
-- Histories of the sessions in the database, in which the two statements of a change of metadata are
-- two steps, and steps of other calls come between (internal/kernel/repository_session.go).
use auto_ze_agent.Common.{
  zero, suc, subst, subst, Bool-cases, List, Option, Option-cases, Text, [], All, All-append, inl,
  inr, is_blank, none, refl, some, ℕ, ◌++◌, ◌∷◌, ◌≡◌, arith,
}
use auto_ze_agent.Kernel.Base.{Time}
use auto_ze_agent.Kernel.Session.{Session, SessionState, normalize_permission_stance}
use auto_ze_agent.Kernel.Metadata.{normalize_model}
use auto_ze_agent.Kernel.Sessions.{
  SessionTable, get_session, create_session_with_workspace, close_session, ensure_session_workspace,
  set_session_preferred_model, set_session_permission_stance, Write, Read, failed, unchanged,
  pending, perform,
}
use auto_ze_agent.Kernel.Bindings.{
  encoded-workspace, LastsIn, Lasts-refl, Lasts-trans, Keeps, ReadKeeps, perform-LastsIn,
  change_metadata-ReadKeeps,
}
use auto_ze_agent.Kernel.Lasting.{
  Result-cases, table_after, create_session-LastsIn, close_session-LastsIn,
}

-- A transaction, the first statement of a change, or the UPDATE of the change at this place among
-- those that have read, with what it takes from the clock.
pub data Step : Type 0 where
  creates : (Session → Text) → Time → Text → Text → Text → Time → Step
  closes : (SessionState → Session → Text) → Time → Text → ℕ → Time → Step
  binds : Text → Text → Step
  sets_model : Text → Text → Step
  sets_stance : Text → Text → Step
  writes : ℕ → Time → Step

-- The database, and the writes of the changes that have read.
pub record Store : Type 0 where
  pub db : SessionTable
  pub open_writes : List Write

unfoldable pub opened : Store → Read → Store
opened x (pending w) = record x { open_writes = x.open_writes ++ w ∷ [] }
opened x _ = x

-- The write at a place, and the others.
unfoldable pub pick : ℕ → List Write → Option (Write × List Write)
pick n [] = none
pick zero (w ∷ ws) = some (w, ws)
pick (suc n) (w ∷ ws) = elim (pick n ws) [ none ↦ none | some (v, rest) ↦ some (v, w ∷ rest) ]

unfoldable pub written : Time → Store → Option (Write × List Write) → Store
written now x none = x
written now x (some (w, rest)) = record { db = perform w now x.db; open_writes = rest }

module _ (compact : Text → Option Text) where
  unfoldable pub run_step : Step → Store → Store
  run_step (creates encode clock id workspace stance now) x = record x {
    db =
        table_after x.db
          (create_session_with_workspace compact encode clock id workspace stance now x.db);
  }
  run_step (closes encode clock id expected now) x = record x {
    db = table_after x.db (close_session compact encode clock id expected now x.db);
  }
  run_step (binds id workspace) x = opened x (ensure_session_workspace id workspace x.db)
  run_step (sets_model id model) x = opened x (set_session_preferred_model id model x.db)
  run_step (sets_stance id stance) x = opened x (set_session_permission_stance id stance x.db)
  run_step (writes n now) x = written now x (pick n x.open_writes)

  unfoldable pub run_steps : List Step → Store → Store
  run_steps [] x = x
  run_steps (c ∷ cs) x = run_steps cs (run_step c x)

binds-ReadKeeps :
    (id i workspace : Text) (db : SessionTable) (s : Session)
    → LastsIn id s db
    → ReadKeeps id s (ensure_session_workspace i workspace db)
unfolding ensure_session_workspace
binds-ReadKeeps id i workspace db s h w e = elim (Bool-cases (is_blank workspace)) [
  | inl b ↦ absurd (ground (arith, rw b at e))
  | inr b ↦
      change_metadata-ReadKeeps id i _ db s
        (λ x m k. elim (Bool-cases (is_blank x.workspace)) [
          | inl f ↦ inl f
          | inr f ↦ absurd (ground (arith, rw f at k))
        ])
        h w (rw b at e)
]

sets_model-ReadKeeps :
    (id i model : Text) (db : SessionTable) (s : Session)
    → LastsIn id s db
    → ReadKeeps id s (set_session_preferred_model i model db)
unfolding set_session_preferred_model
sets_model-ReadKeeps id i model db s h w e = elim (Result-cases (normalize_model model)) [
  | inl (x, k) ↦ absurd (ground (arith, rw (set_session_preferred_model, k) at e))
  | inr (m, k) ↦
      change_metadata-ReadKeeps id i _ db s
        (λ x y q. inr (encoded-workspace x.workspace m x.permission_stance y q)) h w
        (rw (set_session_preferred_model, k) at e)
]

sets_stance-ReadKeeps :
    (id i stance : Text) (db : SessionTable) (s : Session)
    → LastsIn id s db
    → ReadKeeps id s (set_session_permission_stance i stance db)
unfolding set_session_permission_stance
sets_stance-ReadKeeps id i stance db s h w e =
    elim (Result-cases (normalize_permission_stance stance)) [
      | inl (x, k) ↦ absurd (ground (arith, rw (set_session_permission_stance, k) at e))
      | inr (m, k) ↦
          change_metadata-ReadKeeps id i _ db s
            (λ x y q. inr (encoded-workspace x.workspace x.preferred_model m y q)) h w
            (rw (set_session_permission_stance, k) at e)
    ]

-- The session lasts, and so it does when the writes that are open are done.
abbrev pub StaysIn : Text → Session → Store → Type 0
StaysIn id s x = LastsIn id s x.db × All (Keeps id s) x.open_writes

opened-StaysIn :
    (id : Text) (s : Session) (x : Store) (r : Read)
    → StaysIn id s x
    → ReadKeeps id s r
    → StaysIn id s (opened x r)
unfolding opened
opened-StaysIn id s x (failed e) h k = h
opened-StaysIn id s x unchanged h k = h
opened-StaysIn id s x (pending w) (h, open_writes) k =
    (h, All-append (Keeps id s) x.open_writes (w ∷ []) open_writes (k w refl, tt))

pick-Keeps :
    (id : Text) (s : Session) (n : ℕ) (ws : List Write)
    → All (Keeps id s) ws
    → (w : Write) (rest : List Write) → pick n ws ≡ some (w, rest)
    → Keeps id s w × All (Keeps id s) rest
unfolding pick
pick-Keeps id s n [] h w rest e = absurd (ground (arith, e))
pick-Keeps id s zero (v ∷ ws) (k, h) w rest e =
    let one : v ≡ w = ground (arith, e) in
    let others : ws ≡ rest = ground (arith, e) in
    (subst (Keeps id s) one k, subst (All (Keeps id s)) others h)
pick-Keeps id s (suc n) (v ∷ ws) (k, h) w rest e = elim (Option-cases (pick n ws)) [
  | inl f ↦ absurd (ground (arith, rw f at e))
  | inr ((u, others), f) ↦
      let (ku, ho) = pick-Keeps id s n ws h u others f in
      let one : u ≡ w = ground (arith, rw f at e) in
      let all : v ∷ others ≡ rest = ground (arith, rw f at e) in
      (subst (Keeps id s) one ku, subst (All (Keeps id s)) all (k, ho))
]

written-StaysIn :
    (id : Text) (s : Session) (n : ℕ) (now : Time) (x : Store)
    → StaysIn id s x
    → StaysIn id s (written now x (pick n x.open_writes))
unfolding written
written-StaysIn id s n now x (h, k) = elim (Option-cases (pick n x.open_writes)) [
  | inl e ↦ rw (written, e) (h, k)
  | inr ((w, rest), e) ↦
      let (one, others) = pick-Keeps id s n x.open_writes k w rest e in
      rw (written, e) (perform-LastsIn id w now x.db s one h, others)
]

-- A lemma on the session as it is now, carried to the session as it was.
lasts_on :
    (id : Text) (s : Session) (db db' : SessionTable)
    → LastsIn id s db
    → ((t : Session) → get_session id db ≡ some t → LastsIn id t db')
    → LastsIn id s db'
lasts_on id s db db' (t, found, lasts) f =
    let (u, there, still) = f t found in (u, there, Lasts-trans s t u lasts still)

module _ (compact : Text → Option Text) where
  run_step-StaysIn :
      (id : Text) (s : Session) (c : Step) (x : Store)
      → StaysIn id s x
      → StaysIn id s (run_step compact c x)
  unfolding run_step
  run_step-StaysIn id s (creates encode clock i workspace stance now) x (h, k) = (
    lasts_on id s x.db _ h (λ t found.
        create_session-LastsIn compact encode clock now id i workspace stance x.db t found),
    k,
  )
  run_step-StaysIn id s (closes encode clock i expected now) x (h, k) = (
    lasts_on id s x.db _ h
        (λ t found. close_session-LastsIn compact encode clock now id i expected x.db t found),
    k,
  )
  run_step-StaysIn id s (binds i workspace) x h =
      opened-StaysIn id s x _ h (binds-ReadKeeps id i workspace x.db s h.0)
  run_step-StaysIn id s (sets_model i model) x h =
      opened-StaysIn id s x _ h (sets_model-ReadKeeps id i model x.db s h.0)
  run_step-StaysIn id s (sets_stance i stance) x h =
      opened-StaysIn id s x _ h (sets_stance-ReadKeeps id i stance x.db s h.0)
  run_step-StaysIn id s (writes n now) x h = written-StaysIn id s n now x h

  -- Over every history of steps, in which calls overlap in any order, a stored session stays, its
  -- state changes only if it was active, its time of creation stays, and its workspace stays if it
  -- is bound: provided that no change has already read the session and has yet to write another
  -- workspace into it, as one that has read it before the workspace was bound.
  pub run_steps-StaysIn :
      (id : Text) (s : Session) (cs : List Step) (x : Store)
      → get_session id x.db ≡ some s
      → All (Keeps id s) x.open_writes
      → StaysIn id s (run_steps compact cs x)
  unfolding run_steps
  run_steps-StaysIn id s cs x found k = stays cs x ((s, found, Lasts-refl s), k)
    where
      stays : (cs : List Step) (x : Store) → StaysIn id s x → StaysIn id s (run_steps compact cs x)
      stays [] x h = h
      stays (c ∷ cs) x h = stays cs (run_step compact c x) (run_step-StaysIn id s c x h)
