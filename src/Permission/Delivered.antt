-- ===== src/Permission/Delivered.antt =====
-- What a waiting call receives (internal/toolpermission/wait.go).
use auto_ze_agent.Common.{
  Bool-cases, List, Option, Text, [], ap, false, if◌then◌else◌, inl, inr, is_nil, none, refl, subst,
  some, sym, text_eq, text_eq_iff, text_eq_refl, text_eq_comm, ◌∙◌, ◌∷◌, ◌≡◌,
}
use auto_ze_agent.Permission.Waiter.{
  Notice, Waiter, notify, open_channel, opened, receive, register, send, take_from,
}

unfoldable pub notify_all : List Notice → Waiter → Waiter
notify_all [] w = w
notify_all (d ∷ ds) w = notify_all ds (notify d w)

-- The first notice of an ID.
unfoldable pub first_notice : Text → List Notice → Option Notice
first_notice id [] = none
first_notice id (d ∷ ds) =
    let rest = first_notice id ds in if text_eq d.permission_id id then some d else rest

-- The channel of an ID after one notice.
abbrev filled : Notice → Option Notice → Option Notice
filled d none = some d
filled d (some h) = some h

send-same :
    (id : Text) (d : Notice) (w : Waiter) (held : Option Notice)
    → d.permission_id ≡ id
    → w id ≡ some held
    → send d (some held) w id ≡ some (filled d held)
unfolding send
send-same id d w none e h = rw (e, text_eq_refl id) refl
send-same id d w (some k) e h = h

send-other :
    (id : Text) (d : Notice) (w : Waiter) (channel : Option (Option Notice))
    → text_eq d.permission_id id ≡ false
    → send d channel w id ≡ w id
unfolding send
send-other id d w none h = refl
send-other id d w (some none) h = rw (text_eq_comm id d.permission_id, h) refl
send-other id d w (some (some k)) h = refl

notify-same :
    (id : Text) (d : Notice) (w : Waiter) (held : Option Notice)
    → is_nil id ≡ false
    → d.permission_id ≡ id
    → w id ≡ some held
    → notify d w id ≡ some (filled d held)
unfolding notify
notify-same id d w held n e h =
    let n' = subst (λ t. is_nil t ≡ false) (sym e) n in
    let h' = subst (λ t. w t ≡ some held) (sym e) h in rw (n', h') (send-same id d w held e h)

notify-other :
    (id : Text) (d : Notice) (w : Waiter)
    → text_eq d.permission_id id ≡ false
    → notify d w id ≡ w id
unfolding notify
notify-other id d w h = elim (Bool-cases (is_nil d.permission_id)) [
  | inl e ↦ rw e refl
  | inr e ↦ rw e (send-other id d w (w d.permission_id) h)
]

abbrev earlier : Option Notice → Option Notice → Option Notice
earlier (some h) _ = some h
earlier none o = o

notify_all-held :
    (id : Text) (ds : List Notice) (w : Waiter) (held : Option Notice)
    → is_nil id ≡ false
    → w id ≡ some held
    → notify_all ds w id ≡ some (earlier held (first_notice id ds))
unfolding notify_all first_notice
notify_all-held id [] w none n h = h
notify_all-held id [] w (some k) n h = h
notify_all-held id (d ∷ ds) w held n h = elim (Bool-cases (text_eq d.permission_id id)) [
  | inl e ↦
      let same = notify-same id d w held n ((text_eq_iff d.permission_id id).0 e) h in
      notify_all-held id ds (notify d w) (filled d held) n same ∙ rw e (keeps held)
  | inr e ↦ rw e (notify_all-held id ds (notify d w) held n (notify-other id d w e ∙ h))
]
  where
    keeps :
        (held : Option Notice)
        → some (earlier (filled d held) (first_notice id ds)) ≡ some (earlier held (some d))
    keeps none = refl
    keeps (some k) = refl

abbrev pub received : Option (Notice × Waiter) → Option Notice
received none = none
received (some (d, w)) = some d

-- From the registration of an ID on, a call that waits for it receives the first decision that is
-- notified for this ID, and none as long as there is none; decisions for other IDs and later ones
-- for this ID do not matter.
pub receive-notify_all :
    (id : Text) (ds : List Notice) (w : Waiter)
    → is_nil id ≡ false
    → w id ≡ none
    → received (receive id (notify_all ds (register id w))) ≡ first_notice id ds
unfolding receive register open_channel take_from
receive-notify_all id ds w n h =
    let fresh : register id w id ≡ some none = rw (n, text_eq_refl id, h) refl in
    ap (λ c. received (take_from id (notify_all ds (register id w)) (opened c)))
      (notify_all-held id ds (register id w) none n fresh)
    ∙ taken (first_notice id ds)
  where
    taken :
        (o : Option Notice)
        → received (take_from id (notify_all ds (register id w)) (opened (some (earlier none o))))
          ≡ o
    taken none = refl
    taken (some d) = refl
