-- ===== src/Context/Outstanding.antt =====
-- The calls that `RepairToolMessages` has pending, as the set of their IDs
-- (internal/contextpack/repair.go).
use auto_ze_agent.Common.{
  All, All-append, Bool-cases, List, Subset, Text, [], ap, arith, erase_all, false, if◌then◌else◌,
  inl, inr, insert_key, is_nil, is_some, member, member-append, refl, subst, text_eq, text_eq_iff,
  text_eq_refl, trim_space, trim_space_idem, true, ◌++◌, ◌∙◌, ◌∷◌, ◌≡◌,
}
use auto_ze_agent.Context.Message.{ToolCall}
use auto_ze_agent.Context.Repair.{Pending, lookup, put, delete, State, add_call, add_calls}

-- The protocol, from the calls alone: the distinct IDs that a batch of calls opens.
unfoldable pub open_id : ToolCall → List Text → List Text
open_id tc ids = let id = trim_space tc.id in if is_nil id then ids else insert_key id ids

unfoldable pub open_ids : List ToolCall → List Text → List Text
open_ids [] ids = ids
open_ids (tc ∷ tcs) ids = open_ids tcs (open_id tc ids)

unfoldable pub keys : Pending → List Text
keys [] = []
keys ((k, tc) ∷ p) = k ∷ keys p

pub lookup-member : (id : Text) (p : Pending) → is_some (lookup id p) ≡ member id (keys p)
unfolding lookup member keys
lookup-member id [] = refl
lookup-member id ((k, tc) ∷ p) = ground (arith, lookup-member id p)

pub keys-delete : (id : Text) (p : Pending) → keys (delete id p) ≡ erase_all id (keys p)
unfolding delete erase_all keys
keys-delete id [] = refl
keys-delete id ((k, tc) ∷ p) = elim (Bool-cases (text_eq k id)) [
  | inl e ↦ rw e (keys-delete id p)
  | inr e ↦ rw e (ap (◌∷◌ k) (keys-delete id p))
]

pub keys-put :
    (id : Text) (tc : ToolCall) (p : Pending) → keys (put id tc p) ≡ insert_key id (keys p)
unfolding put insert_key member keys
keys-put id tc [] = refl
keys-put id tc ((k, old) ∷ p) = elim (Bool-cases (text_eq k id)) [
  | inl e ↦ rw e refl
  | inr e ↦ rw e (rw (keys-put id tc p) (unfold insert_key in ground arith))
]

abbrev pub Tight : Text → Type 0
Tight x = trim_space x ≡ x

-- The state of the loop: what is pending is in the order, under trimmed IDs.
pub record Inv (s : State) : Type 0 where
  pub covered : Subset (keys s.pending) s.order
  pub tight : All Tight (keys s.pending)

pub Subset-append : (xs ys zs : List Text) → Subset xs ys → Subset xs (ys ++ zs)
Subset-append [] ys zs h = tt
Subset-append (x ∷ xs) ys zs h =
    (ground (arith, member-append x ys zs, h.0), Subset-append xs ys zs h.1)

pub Subset-insert_key :
    (x : Text) (xs ys : List Text) → Subset xs ys → Subset (insert_key x xs) (ys ++ x ∷ [])
unfolding insert_key
Subset-insert_key x xs ys h = elim (Bool-cases (member x xs)) [
  | inl e ↦ rw e (Subset-append xs ys (x ∷ []) h)
  | inr e ↦ rw e (
      All-append (λ z. member z (ys ++ x ∷ []) ≡ true) xs (x ∷ []) (Subset-append xs ys (x ∷ []) h)
        (ground (arith, member-append x ys (x ∷ []), unfold_one x), tt))
]
  where
    unfold_one : (x : Text) → member x (x ∷ []) ≡ true
    unfold_one x = unfold member in ground (arith, text_eq_refl x)

pub All-insert_key :
    (x : Text) (xs : List Text) → Tight x → All Tight xs → All Tight (insert_key x xs)
unfolding insert_key
All-insert_key x xs t h = elim (Bool-cases (member x xs)) [
  | inl e ↦ rw e h
  | inr e ↦ rw e (All-append Tight xs (x ∷ []) h (t, tt))
]

pub add_call-Inv : (tc : ToolCall) (s : State) → Inv s → Inv (add_call tc s)
unfolding add_call
add_call-Inv tc s h = elim (Bool-cases (is_nil (trim_space tc.id))) [
  | inl e ↦ rw e h
  | inr e ↦ rw e (record {
    covered =
        rw (keys-put (trim_space tc.id) tc s.pending)
          (Subset-insert_key (trim_space tc.id) (keys s.pending) s.order h.covered);
    tight =
        rw (keys-put (trim_space tc.id) tc s.pending)
          (All-insert_key (trim_space tc.id) (keys s.pending) (trim_space_idem tc.id) h.tight);
  })
]

pub keys-add_call :
    (tc : ToolCall) (s : State) → keys (add_call tc s).pending ≡ open_id tc (keys s.pending)
unfolding add_call open_id
keys-add_call tc s = ground (arith, keys-put (trim_space tc.id) tc s.pending)

pub add_calls-Inv :
    (tcs : List ToolCall) (s : State)
    → Inv s
    → Inv (add_calls tcs s) × (keys (add_calls tcs s).pending ≡ open_ids tcs (keys s.pending))
unfolding add_calls open_ids
add_calls-Inv [] s h = (h, refl)
add_calls-Inv (tc ∷ tcs) s h =
    let (i, e) = add_calls-Inv tcs (add_call tc s) (add_call-Inv tc s h) in
    (i, e ∙ ap (open_ids tcs) (keys-add_call tc s))

pub All-member : (x : Text) (ys : List Text) → All Tight ys → member x ys ≡ true → Tight x
unfolding member
All-member x [] t h = absurd (cc)
All-member x (y ∷ ys) t h = elim (Bool-cases (text_eq y x)) [
  | inl e ↦ subst Tight ((text_eq_iff y x).0 e) t.0
  | inr e ↦ All-member x ys t.1 (rw e at h)
]

pub Subset-nil : (xs : List Text) → Subset xs [] → xs ≡ []
unfolding member
Subset-nil [] h = refl
Subset-nil (x ∷ xs) h = absurd (cc (h.0))

pub Subset-tail :
    (x : Text) (zs os : List Text) → member x zs ≡ false → Subset zs (x ∷ os) → Subset zs os
unfolding member
Subset-tail x [] os n h = tt
Subset-tail x (z ∷ zs) os n h =
    (ground (arith, h.0, text_eq_iff z x, text_eq_iff x z), Subset-tail x zs os (ground arith) h.1)

pub Subset-erase : (x : Text) (zs os : List Text) → Subset zs (x ∷ os) → Subset (erase_all x zs) os
unfolding member erase_all
Subset-erase x [] os h = tt
Subset-erase x (z ∷ zs) os h = elim (Bool-cases (text_eq z x)) [
  | inl e ↦ rw e (Subset-erase x zs os h.1)
  | inr e ↦ rw e (ground (arith, h.0, text_eq_iff z x, text_eq_iff x z), Subset-erase x zs os h.1)
]
