-- ===== src/Permission/Marks.antt =====
-- The table of requests across a decision (internal/toolpermission).
use auto_ze_agent.Common.{
  ℕ, List, Text, ap, arith, codes, false, find_row, find_row-update_rows, find_row_key, inl, inr,
  is_blank, is_space, refl, some, subst, sym, text_eq, text_eq_iff, trim_left, trim_right,
  trim_space, true, update_rows, updated_row, ◌++◌, ◌∙◌, ◌∷◌, ◌≡◌, ◌⊎◌,
}
use auto_ze_agent.Permission.Requests.{
  Outcome, Request, StoreError, Stored, decide_row, get, is_open, mark_decided, not_stored,
  state_pending, stored,
}
use auto_ze_agent.Permission.Choices.{
  Choice, Permits, allow_once, allow_permanent, allow_similar, allowed_state, answer_of, decided,
  deny, finish, finish_marked,
}

-- What `MarkDecided` stores.
mark_decided-stored :
    (id : Text) (o : Outcome) (rows new : List Request)
    → mark_decided id o rows ≡ stored new
    → (update_rows (is_open id) (decide_row o) rows).0 ≡ new
unfolding mark_decided
mark_decided-stored id o rows new h = ground arith

-- `MarkDecided` at one request.
get-mark_decided :
    (other id : Text) (o : Outcome) (rows new : List Request)
    → mark_decided id o rows ≡ stored new
    → get other new ≡ updated_row (is_open id) (decide_row o) (get other rows)
unfolding get
get-mark_decided other id o rows new h =
    subst
      (λ n.
        find_row Request.id (trim_space other) n
        ≡ updated_row (is_open id) (decide_row o) (find_row Request.id (trim_space other) rows))
      (mark_decided-stored id o rows new h)
      (find_row-update_rows Request.id (trim_space other) (is_open id) (decide_row o) rows
        (λ r. unfold decide_row in refl))

Stored-cases :
    (m : Stored)
    → ((e : StoreError) × (m ≡ not_stored e)) ⊎ ((rows : List Request) × (m ≡ stored rows))
Stored-cases (not_stored e) = inl (e, refl)
Stored-cases (stored rows) = inr (rows, refl)

is_open-decided :
    (id : Text) (r : Request) → text_eq r.state state_pending ≡ false → is_open id r ≡ false
unfolding is_open
is_open-decided id r h = ground (arith, h)

-- A request that is decided stays as it is.
pub finish-keeps :
    (other id : Text) (o : Outcome) (s : Permits) (r : Request)
    → get other s.requests ≡ some r
    → text_eq r.state state_pending ≡ false
    → get other (finish id o s).0.requests ≡ some r
unfolding finish finish_marked
finish-keeps other id o s r there h = elim (Stored-cases (mark_decided id o s.requests)) [
  | inl (e, m) ↦ rw m there
  | inr (rows, m) ↦
      rw (m, get-mark_decided other id o s.requests rows m, there, is_open-decided id r h) refl
]

is_blank-unspaced : (c : ℕ) (s : Text) → is_space c ≡ false → is_blank (c ∷ s) ≡ false
unfolding trim_space trim_left trim_right
is_blank-unspaced c s h = ground (arith, h)

pub named : (t : Text) → is_blank (codes "perm-grant-" ++ t) ≡ false
named t = is_blank-unspaced 112 (codes "erm-grant-" ++ t) (unfold is_space in refl)

pub allowed-decided : (c : Choice) → text_eq (allowed_state c) state_pending ≡ false
unfolding text_eq state_pending
allowed-decided allow_once = refl
allowed-decided allow_similar = refl
allowed-decided allow_permanent = refl
allowed-decided deny = refl

is_open-pending :
    (id : Text) (rows : List Request) (r : Request)
    → trim_space id ≡ id
    → get id rows ≡ some r
    → text_eq r.state state_pending ≡ true
    → is_open id r ≡ true
unfolding is_open get
is_open-pending id rows r tight there p =
    let same =
      (text_eq_iff r.id id).1 (find_row_key Request.id (trim_space id) rows r there ∙ tight) in
    ground (arith, same, p)

decided_inj : (a b : Request) → decided a ≡ decided b → a ≡ b
decided_inj a b h = cc

-- What the last steps answer for a request that was pending.
pub finish-decided :
    (id : Text) (o : Outcome) (s : Permits) (req out : Request)
    → trim_space id ≡ id
    → get id s.requests ≡ some req
    → text_eq req.state state_pending ≡ true
    → (finish id o s).1 ≡ decided out
    → (decide_row o req ≡ out)
      × ((get id (finish id o s).0.requests ≡ some out) × ((finish id o s).0.tables ≡ s.tables))
unfolding finish finish_marked
finish-decided id o s req out tight there p h = elim (Stored-cases (mark_decided id o s.requests)) [
  | inl (e, m) ↦ absurd (ground (arith, rw m at h))
  | inr (rows, m) ↦
      let opened = is_open-pending id s.requests req tight there p in
      let got : get id rows ≡ some (decide_row o req) =
        get-mark_decided id id o s.requests rows m ∙ rw (there, opened) refl in
      let answered : answer_of (get id rows) ≡ decided out = rw m at h in
      let same = decided_inj _ out (sym (ap answer_of got) ∙ answered) in
      (same, (rw m (got ∙ ap some same), rw m refl))
]
