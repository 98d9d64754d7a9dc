-- ===== src/Agent/Delivery.antt =====
-- What the inbox delivers over a history of calls (internal/agent/inbox.go).
use auto_ze_agent.Common.{
  Bool-cases, List, Text, [], ap, append-nil, append_assoc, arith, false, if◌then◌else◌, inl, inr,
  is_nil, keep_if, keep_if-append, keep_if_outside, keep_if_within, refl, subst, sym, text_eq,
  text_eq_iff, trim_space, true, ◌++◌, ◌∙◌, ◌∷◌, ◌≡◌, ◌⊎◌,
}
use auto_ze_agent.Agent.Inbox.{
  InboxItem, Inbox, trimmed, accepts, enqueue, of_session, of_others, claim_step,
}

pub data Call : Type 0 where
  enqueues : InboxItem → Call
  claims : Text → Call

-- The items of one session, oldest first.
abbrev pub queued : Text → Inbox → List InboxItem
queued session next = keep_if (of_session session) next

-- Over a history: what was appended for the session, what was claimed for it, and the queue left.
pub record Trace : Type 0 where
  pub appended : List InboxItem
  pub claimed : List InboxItem
  pub left : Inbox

unfoldable pub after_call : Call → Inbox → Inbox
after_call (enqueues item) next = enqueue item next
after_call (claims s) next = (claim_step s next).1

unfoldable pub appended_by : Text → Call → Inbox → List InboxItem
appended_by session (enqueues item) next =
    if accepts next (trimmed item) then keep_if (of_session session) (trimmed item ∷ []) else []
appended_by session (claims s) next = []

unfoldable pub claimed_by : Text → Call → Inbox → List InboxItem
claimed_by session (enqueues item) next = []
claimed_by session (claims s) next = keep_if (of_session session) (claim_step s next).0

unfoldable pub trace : Text → List Call → Inbox → Trace
trace session [] next = record { appended = []; claimed = []; left = next }
trace session (c ∷ cs) next =
    let t = trace session cs (after_call c next) in
    record {
      appended = appended_by session c next ++ t.appended;
      claimed = claimed_by session c next ++ t.claimed;
      left = t.left;
    }

not_other :
    (session s : Text) (x : InboxItem)
    → text_eq session s ≡ true
    → of_session session x ≡ true
    → of_others s x ≡ false
not_other session s x e h =
    ground (arith, text_eq_iff session s, text_eq_iff x.session s, text_eq_iff x.session session)

is_other :
    (session s : Text) (x : InboxItem)
    → text_eq session s ≡ false
    → of_session session x ≡ true
    → of_others s x ≡ true
is_other session s x e h =
    ground (arith, text_eq_iff session s, text_eq_iff x.session s, text_eq_iff x.session session)

is_claimed :
    (session s : Text) (x : InboxItem)
    → text_eq session s ≡ true
    → of_session session x ≡ true
    → of_session s x ≡ true
is_claimed session s x e h =
    ground (arith, text_eq_iff session s, text_eq_iff x.session s, text_eq_iff x.session session)

not_claimed :
    (session s : Text) (x : InboxItem)
    → text_eq session s ≡ false
    → of_session session x ≡ true
    → of_session s x ≡ false
not_claimed session s x e h =
    ground (arith, text_eq_iff session s, text_eq_iff x.session s, text_eq_iff x.session session)

queued-claimed :
    (session s : Text) (next : Inbox)
    → queued session (keep_if (of_session s) next) ++ queued session (keep_if (of_others s) next)
      ≡ queued session next
queued-claimed session s next = elim (Bool-cases (text_eq session s)) [
  | inl e ↦
      rw
        (
          keep_if_within (of_session session) (of_session s) next (λ x. is_claimed session s x e),
          keep_if_outside (of_session session) (of_others s) next (λ x. not_other session s x e),
        )
        (append-nil (queued session next))
  | inr e ↦ rw (
    keep_if_outside (of_session session) (of_session s) next (λ x. not_claimed session s x e),
    keep_if_within (of_session session) (of_others s) next (λ x. is_other session s x e),
  )
]

claim_step_cases :
    (s : Text) (next : Inbox)
    → (claim_step s next ≡ ([], next))
      ⊎ (claim_step s next
          ≡ (keep_if (of_session (trim_space s)) next, keep_if (of_others (trim_space s)) next))
unfolding claim_step
claim_step_cases s next = elim (Bool-cases (is_nil (trim_space s))) [
  | inl e ↦ inl (rw e refl)
  | inr e ↦ inr (rw e refl)
]

-- One call: what was queued and is appended is what is claimed and is queued afterwards.
call_balance :
    (session : Text) (c : Call) (next : Inbox)
    → queued session next ++ appended_by session c next
      ≡ claimed_by session c next ++ queued session (after_call c next)
unfolding after_call appended_by claimed_by enqueue
call_balance session (enqueues item) next = elim (Bool-cases (accepts next (trimmed item))) [
  | inl e ↦
      rw e (sym (keep_if-append (of_session session) (of_session session) next (trimmed item ∷ [])))
  | inr e ↦ rw e (append-nil (queued session next))
]
call_balance session (claims s) next = elim (claim_step_cases s next) [
  | inl e ↦ subst Balanced (sym e) (append-nil (queued session next))
  | inr e ↦
      subst Balanced (sym e)
        (append-nil (queued session next) ∙ sym (queued-claimed session (trim_space s) next))
]
  where
    Balanced : List InboxItem × Inbox → Type 0
    Balanced r = queued session next ++ [] ≡ queued session r.0 ++ queued session r.1

-- Over every history of `Enqueue` and `ClaimStep` calls, what was claimed for a session and then
-- what is still queued for it are exactly what was queued at the start and what was appended since,
-- each item once and in order.
pub trace-fifo :
    (session : Text) (cs : List Call) (next : Inbox)
    → queued session next ++ (trace session cs next).appended
      ≡ (trace session cs next).claimed ++ queued session (trace session cs next).left
unfolding trace
trace-fifo session [] next = append-nil (queued session next)
trace-fifo session (c ∷ cs) next =
    let next' = after_call c next in
    sym (
      append_assoc (queued session next) (appended_by session c next)
        (trace session cs next').appended)
    ∙ ap (λ xs. xs ++ (trace session cs next').appended) (call_balance session c next)
    ∙ append_assoc (claimed_by session c next) (queued session next')
        (trace session cs next').appended
    ∙ ap (◌++◌ (claimed_by session c next)) (trace-fifo session cs next')
    ∙ sym (
        append_assoc (claimed_by session c next) (trace session cs next').claimed
          (queued session (trace session cs next').left))
