-- ===== src/Context/Pairing.antt =====
-- What `RepairToolMessages` guarantees of a provider's view (internal/contextpack/repair.go).
use auto_ze_agent.Common.{
  All, All-erase_all, Bool, Bool-cases, List, Option-cases, Subset, Text, [], ap, append-nil,
  append_assoc, erase_all, erase_all-Subset, inl, inr, is_nil, is_some, member, refl, some, sym,
  trim_space, true, ◌&&◌, ◌++◌, ◌∙◌, ◌∷◌, ◌≡◌,
}
use auto_ze_agent.Context.Message.{Role, system, user, assistant, tool, other, ToolCall, Message}
use auto_ze_agent.Context.Repair.{
  Pending, delete, lookup, State, synthetic, flush_missing, keep_result, flushed, repair_role,
  repair_from, repair_tool_messages,
}
use auto_ze_agent.Context.Outstanding.{
  open_ids, keys, lookup-member, keys-delete, Tight, Inv, All-member, Subset-nil, Subset-tail,
  Subset-erase, add_calls-Inv,
}

-- The IDs that calls have opened and that are not blank, each once: a result answers one and closes
-- it; when any other message of the protocol comes, and at the end, none is open.
unfoldable pub well_paired_at : Role → Message → List Text → Bool × List Text
unfolding open_ids
well_paired_at assistant m open_calls = (is_nil open_calls, open_ids m.tool_calls [])
well_paired_at tool m open_calls = (
  member (trim_space m.tool_call_id) open_calls,
  erase_all (trim_space m.tool_call_id) open_calls,
)
well_paired_at user m open_calls = (is_nil open_calls, [])
well_paired_at system m open_calls = (is_nil open_calls, [])
well_paired_at (other r) m open_calls = (true, open_calls)

unfoldable pub well_paired : List Text → List Message → Bool
unfolding well_paired_at
well_paired open_calls [] = is_nil open_calls
well_paired open_calls (m ∷ ms) =
    let (now, later) = well_paired_at m.role m open_calls in now && well_paired later ms

pub well_paired_cons :
    (r : Role) (m : Message) (open_calls : List Text) (rest : List Message)
    → m.role ≡ r
    → well_paired open_calls (m ∷ rest)
      ≡ ((well_paired_at r m open_calls).0 && well_paired (well_paired_at r m open_calls).1 rest)
unfolding well_paired
well_paired_cons r m open_calls rest e =
    ap
      (λ q. (well_paired_at q m open_calls).0 && well_paired (well_paired_at q m open_calls).1 rest)
      e

module _ (quote : Text → Text) where
  synthetic_answers :
      (id : Text) (tc : ToolCall) (open_calls : List Text) (rest : List Message)
      → trim_space id ≡ id
      → member id open_calls ≡ true
      → well_paired open_calls (synthetic quote id tc ∷ rest)
        ≡ well_paired (erase_all id open_calls) rest
  unfolding synthetic well_paired well_paired_at
  synthetic_answers id tc open_calls rest t m = rw (t, m) refl

  -- Flushing emits a result for each call that is pending under an ID of the order.
  flush-keys :
      (ids : List Text) (p : Pending) (rest : List Message)
      → All Tight (keys p)
      → well_paired (keys p) ((flush_missing quote ids p).0 ++ rest)
        ≡ well_paired (keys (flush_missing quote ids p).1) rest
  unfolding flush_missing
  flush-keys [] p rest t = refl
  flush-keys (id ∷ ids) p rest t = elim (Option-cases (lookup id p)) [
    | inl e ↦ rw (e, flush_missing) (flush-keys ids p rest t)
    | inr (tc, e) ↦
        rw (e, flush_missing)
          (synthetic_answers id tc (keys p) _ (All-member id (keys p) t (found tc e)) (found tc e)
            ∙ ap (λ ks. well_paired ks ((flush_missing quote ids (delete id p)).0 ++ rest))
                (sym (keys-delete id p))
            ∙ flush-keys ids (delete id p) rest
                (rw (keys-delete id p) (All-erase_all Tight id (keys p) t)))
  ]
    where
      found : (tc : ToolCall) → lookup id p ≡ some tc → member id (keys p) ≡ true
      found tc e = sym (lookup-member id p) ∙ ap is_some e

  flush-all :
      (ids : List Text) (p : Pending)
      → Subset (keys p) ids
      → keys (flush_missing quote ids p).1 ≡ []
  unfolding flush_missing
  flush-all [] p h = Subset-nil (keys p) h
  flush-all (id ∷ ids) p h = elim (Option-cases (lookup id p)) [
    | inl e ↦
        rw (e, flush_missing)
          (flush-all ids p
            (Subset-tail id (keys p) ids (sym (lookup-member id p) ∙ ap is_some e) h))
    | inr (tc, e) ↦
        rw (e, flush_missing)
          (flush-all ids (delete id p) (rw (keys-delete id p) (Subset-erase id (keys p) ids h)))
  ]

  -- A flush closes every open call.
  flushed-paired :
      (s : State) (m : Message) (rest : List Message)
      → Inv s
      → well_paired (keys s.pending) ((flushed quote s (m ∷ [])).1 ++ rest)
        ≡ well_paired [] (m ∷ rest)
  unfolding flushed
  flushed-paired s m rest h = rw append_assoc (
      flush-keys s.order s.pending (m ∷ rest) h.tight
      ∙ ap (λ ks. well_paired ks (m ∷ rest)) (flush-all s.order s.pending h.covered))

  flushed-keys :
      (s : State) (out : List Message) → Inv s → keys (flushed quote s out).0.pending ≡ []
  unfolding flushed
  flushed-keys s out h = flush-all s.order s.pending h.covered

  flushed-Inv : (s : State) (out : List Message) → Inv s → Inv (flushed quote s out).0
  flushed-Inv s out h = record {
    covered = rw (flushed-keys s out h) tt;
    tight = rw (flushed-keys s out h) tt;
  }

  -- One round answers the open calls as the protocol wants, and keeps what is pending open.
  Answers : State → List Message → (State × List Message) → Type 0
  Answers s rest r =
      Inv r.0 × (well_paired (keys s.pending) (r.1 ++ rest) ≡ well_paired (keys r.0.pending) rest)

  keep_result-Answers :
      (s : State) (m : Message) (rest : List Message)
      → m.role ≡ tool
      → Inv s
      → Answers s rest (
          keep_result
            (lookup (trim_space m.tool_call_id) s.pending)
            (trim_space m.tool_call_id)
            s
            m)
  unfolding Answers
  keep_result-Answers s m rest e h =
      elim (Option-cases (lookup (trim_space m.tool_call_id) s.pending)) [
        | inl n ↦ rw n (unfold keep_result in (h, refl))
        | inr (tc, f) ↦ rw f (kept tc f)
      ]
    where
      id : Text
      id = trim_space m.tool_call_id

      ks : keys (delete id s.pending) ≡ erase_all id (keys s.pending)
      ks = keys-delete id s.pending

      kept :
          (tc : ToolCall)
          → lookup id s.pending ≡ some tc
          → Answers s rest (keep_result (some tc) id s m)
      kept tc f =
          let inside = sym (lookup-member id s.pending) ∙ ap is_some f in
          unfold keep_result in
          (
            record {
              covered = rw ks (erase_all-Subset id (keys s.pending) s.order h.covered);
              tight = rw ks (All-erase_all Tight id (keys s.pending) h.tight);
            },
            well_paired_cons tool m (keys s.pending) rest e
                ∙ unfold well_paired_at in rw (inside, ks) refl,
          )

  role_paired :
      (r : Role) (s : State) (m : Message) (rest : List Message)
      → m.role ≡ r
      → Inv s
      → Answers s rest (repair_role quote r s m)
  unfolding repair_role Answers
  role_paired user s m rest e h = (
    flushed-Inv s (m ∷ []) h,
    flushed-paired s m rest h
        ∙ well_paired_cons user m [] rest e
        ∙ unfold well_paired_at in ap (λ ks. well_paired ks rest) (sym (flushed-keys s (m ∷ []) h)),
  )
  role_paired system s m rest e h = (
    flushed-Inv s (m ∷ []) h,
    flushed-paired s m rest h
        ∙ well_paired_cons system m [] rest e
        ∙ unfold well_paired_at in ap (λ ks. well_paired ks rest) (sym (flushed-keys s (m ∷ []) h)),
  )
  role_paired assistant s m rest e h =
      let (i, k) =
        add_calls-Inv m.tool_calls (flushed quote s (m ∷ [])).0 (flushed-Inv s (m ∷ []) h) in
      (
        i,
        flushed-paired s m rest h
            ∙ well_paired_cons assistant m [] rest e
            ∙ unfold well_paired_at in
              ap (λ ks. well_paired ks rest)
                (sym (k ∙ ap (open_ids m.tool_calls) (flushed-keys s (m ∷ []) h))),
      )
  role_paired tool s m rest e h = elim (Bool-cases (is_nil (trim_space m.tool_call_id))) [
    | inl b ↦ rw b (h, refl)
    | inr b ↦ rw b (keep_result-Answers s m rest e h)
  ]
  role_paired (other r) s m rest e h =
      (h, well_paired_cons (other r) m (keys s.pending) rest e ∙ unfold well_paired_at in refl)

  repair_from-paired :
      (ms : List Message) (s : State)
      → Inv s
      → well_paired (keys s.pending) (repair_from quote s ms) ≡ true
  unfolding repair_from Answers well_paired
  repair_from-paired [] s h =
      ap (well_paired (keys s.pending)) (sym (append-nil (flush_missing quote s.order s.pending).0))
      ∙ flush-keys s.order s.pending [] h.tight
      ∙ rw (flush-all s.order s.pending h.covered) refl
  repair_from-paired (m ∷ ms) s h =
      let s' = (repair_role quote m.role s m).0 in
      let (i, e) = role_paired m.role s m (repair_from quote s' ms) refl h in
      e ∙ repair_from-paired ms s' i

  -- In the repaired view every tool result answers a call of the last assistant message, by an ID
  -- that has had no result yet, and every ID that is not blank and that the calls of an assistant
  -- message carry has exactly one result before the next system, user or assistant message and
  -- before the end. Calls with a blank ID get no result, and calls that share an ID share one.
  pub repair_tool_messages-well_paired :
      (ms : List Message) → well_paired [] (repair_tool_messages quote ms) ≡ true
  unfolding repair_tool_messages keys
  repair_tool_messages-well_paired ms =
      repair_from-paired ms (record { pending = []; order = [] })
        (record { covered = tt; tight = tt })
