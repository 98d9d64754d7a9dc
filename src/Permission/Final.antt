-- ===== src/Permission/Final.antt =====
-- A decision is final, and an allowed one has its grant (internal/toolpermission).
use auto_ze_agent.Common.{
  to_lower, Bool-cases, text_eq_iff, codes, arith, List, Text, [], ap, false, find_row, inl, inr,
  is_some, refl, some, subst, sym, text_eq, trim_space, trim_space_idem, true, ◌∙◌, ◌∷◌, ◌≡◌, ◌⊎◌,
}
use auto_ze_agent.Kernel.Base.{Time}
use auto_ze_agent.Approval.Match.{Grant}
use auto_ze_agent.Approval.Records.{Tables}
use auto_ze_agent.Permission.Requests.{Request, decide_row, get, or_else, state_pending}
use auto_ze_agent.Permission.Choices.{
  Choice, choice_of, choice_text, allow_once, allow_similar, allow_permanent, deny, Answer,
  DecideError, DecideOptions, Permits, allowed_state, decided, finish, refused,
}
use auto_ze_agent.Permission.Decide.{Order, Outside, decide_with_options, outcome}
use auto_ze_agent.Permission.Paths.{Backed, decide_with_options-Decides}
use auto_ze_agent.Permission.Marks.{finish-keeps, named, allowed-decided, finish-decided}

-- A call of `DecideWithOptions`.
pub record Call : Type 0 where
  pub permission_id : Text
  pub decision : Text
  pub actor : Text
  pub options : DecideOptions
  pub now : Time

unfoldable pub decide_all : Outside → List Call → Permits → Permits
decide_all x [] s = s
decide_all x (c ∷ cs) s =
    decide_all x cs (decide_with_options x c.permission_id c.decision c.actor c.options c.now s).0

module _ (x : Outside) where
  -- Whatever is decided and for whichever request, a request that is no longer pending stays as it
  -- is.
  decide_with_options-keeps :
      (permission_id decision actor other : Text) (opts : DecideOptions) (now : Time) (s : Permits)
      (r : Request)
      → get other s.requests ≡ some r
      → text_eq r.state state_pending ≡ false
      → get other (decide_with_options x permission_id decision actor opts now s).0.requests
        ≡ some r
  decide_with_options-keeps permission_id decision actor other opts now s r there h =
      elim (decide_with_options-Decides x permission_id decision actor opts now s) [
        | inl (e, (a, (same, w))) ↦ subst (λ q. get other q ≡ some r) (sym same) there
        | inr (o, (k, (req, (i, (g, (p, (grant_id, (mid, (f, (same, b)))))))))) ↦
            subst (λ (q : Permits × Answer). get other q.0.requests ≡ some r) (sym f)
              (finish-keeps other o.id (outcome x o grant_id) mid r
                (subst (λ q. get other q ≡ some r) (sym same) there) h)
      ]

  decide_all-keeps :
      (cs : List Call) (other : Text) (s : Permits) (r : Request)
      → get other s.requests ≡ some r
      → text_eq r.state state_pending ≡ false
      → get other (decide_all x cs s).requests ≡ some r
  unfolding decide_all
  decide_all-keeps [] other s r there h = there
  decide_all-keeps (c ∷ cs) other s r there h =
      decide_all-keeps cs other _ r
        (decide_with_options-keeps c.permission_id c.decision c.actor other c.options c.now s r
          there h)
        h

  -- A request that is no longer pending is not decided again.
  decide_with_options-refuses :
      (permission_id decision actor : Text) (opts : DecideOptions) (now : Time) (s : Permits)
      (r : Request)
      → get (trim_space permission_id) s.requests ≡ some r
      → text_eq r.state state_pending ≡ false
      → (e : DecideError) × ((decide_with_options x permission_id decision actor opts now s).1
          ≡ refused e)
  decide_with_options-refuses permission_id decision actor opts now s r there h =
      elim (decide_with_options-Decides x permission_id decision actor opts now s) [
        | inl (e, (a, rest)) ↦ (e, a)
        | inr (o, (c, (req, (i, (g, (p, f)))))) ↦ absurd (cc)
      ]

  -- The word of an allowance, and the state that it gives the request.
  abbrev pub Allows : Text → Text → Type 0
  Allows word state =
      ((word ≡ codes "allow_once") × (state ≡ codes "allowed_once"))
      ⊎ (((word ≡ codes "allow_similar") × (state ≡ codes "allowed_similar"))
          ⊎ ((word ≡ codes "allow_permanent") × (state ≡ codes "allowed_permanent")))

  -- The word "deny" denies the request and leaves the tables; the word of an allowance gives the
  -- request its state, and the grant that it names is in the table.
  abbrev pub Answers : Text → Permits → Permits → Request → Type 0
  Answers word s s' out =
      ((word ≡ codes "deny") × ((out.state ≡ codes "denied") × (s'.tables ≡ s.tables)))
      ⊎ (Allows word out.state × (is_some (find_row Grant.id out.grant_id s'.tables.grants) ≡ true))

  abbrev pub Leaves : Text → Text → Permits → Permits → Request → Type 0
  Leaves permission_id decision s s' out =
      (get (trim_space permission_id) s'.requests ≡ some out)
      × ((text_eq out.state state_pending ≡ false)
          × Answers (to_lower (trim_space decision)) s s' out)

  choice_of-text : (w : Text) (c : Choice) → choice_of w ≡ some c → w ≡ choice_text c
  unfolding choice_of
  choice_of-text w c h = elim (Bool-cases (text_eq w (codes "allow_once"))) [
    | inl e ↦ (text_eq_iff _ _).0 e ∙ ap choice_text (some-same allow_once c (rw e at h))
    | inr e ↦ elim (Bool-cases (text_eq w (codes "allow_similar"))) [
      | inl f ↦ (text_eq_iff _ _).0 f ∙ ap choice_text (some-same allow_similar c (rw (e, f) at h))
      | inr f ↦ elim (Bool-cases (text_eq w (codes "allow_permanent"))) [
        | inl g ↦
            (text_eq_iff _ _).0 g ∙ ap choice_text (some-same allow_permanent c (rw (e, f, g) at h))
        | inr g ↦ elim (Bool-cases (text_eq w (codes "deny"))) [
          | inl k ↦ (text_eq_iff _ _).0 k ∙ ap choice_text (some-same deny c (rw (e, f, g, k) at h))
          | inr k ↦ absurd (ground (arith, rw (e, f, g, k) at h))
        ]
      ]
    ]
  ]
    where
      some-same : (a b : Choice) → some a ≡ some b → a ≡ b
      some-same a b h = ground (arith, h)

  -- What the choice and the backing come to, for the word of the choice.
  answered :
      (c : Choice) (word : Text) (s s' : Permits) (out : Request)
      → word ≡ choice_text c
      → out.state ≡ allowed_state c
      → ((c ≡ deny) × (s'.tables ≡ s.tables))
        ⊎ (¬ (c ≡ deny) × (is_some (find_row Grant.id out.grant_id s'.tables.grants) ≡ true))
      → Answers word s s' out
  answered deny word s s' out w e (inl (d, same)) = inl (w, (e, same))
  answered deny word s s' out w e (inr (d, there)) = absurd (d refl)
  answered allow_once word s s' out w e (inl (d, same)) = absurd (cc)
  answered allow_once word s s' out w e (inr (d, there)) = inr (inl (w, e), there)
  answered allow_similar word s s' out w e (inl (d, same)) = absurd (cc)
  answered allow_similar word s s' out w e (inr (d, there)) = inr (inr (inl (w, e)), there)
  answered allow_permanent word s s' out w e (inl (d, same)) = absurd (cc)
  answered allow_permanent word s s' out w e (inr (d, there)) = inr (inr (inr (w, e)), there)

  clash : (a : Answer) (out : Request) (e : DecideError) → a ≡ decided out → a ≡ refused e → ⊥
  clash a out e h k = cc

  Backed-granted :
      (o : Order) (s mid : Permits) (grant_id word : Text) (req out : Request)
      → Backed x o grant_id s mid
      → word ≡ choice_text o.choice
      → decide_row (outcome x o grant_id) req ≡ out
      → Answers word s mid out
  unfolding decide_row outcome
  Backed-granted o s mid grant_id word req out b w e =
      answered o.choice word s mid out w (sym (ap Request.state e)) (elim b [
        | inl (c, (n, same)) ↦ inl (c, same)
        | inr (d, (t, (n, there))) ↦
            let id : out.grant_id ≡ grant_id =
              sym (ap Request.grant_id e)
              ∙ subst (λ i. or_else i [] ≡ i) (sym n) (rw (named t) refl) in
            inr (
              d,
              subst (λ i. is_some (find_row Grant.id i mid.tables.grants) ≡ true) (sym id) there,
            )
      ])

  state-decided :
      (o : Order) (grant_id : Text) (req out : Request)
      → decide_row (outcome x o grant_id) req ≡ out
      → text_eq out.state state_pending ≡ false
  unfolding decide_row outcome
  state-decided o grant_id req out e =
      subst (λ t. text_eq t state_pending ≡ false) (ap Request.state e) (allowed-decided o.choice)

  -- A decision that succeeds leaves the request as it is answered, no longer pending. The word of
  -- the decision, trimmed and in lower case, is "deny", and then the request is denied and the
  -- tables of approvals and grants are as they were; or it is one of the three allowances, and then
  -- the request has the state of this allowance, and the grant that it names is in the table.
  pub decide_with_options-Leaves :
      (permission_id decision actor : Text) (opts : DecideOptions) (now : Time) (s s' : Permits)
      (out : Request)
      → decide_with_options x permission_id decision actor opts now s ≡ (s', decided out)
      → Leaves permission_id decision s s' out
  decide_with_options-Leaves permission_id decision actor opts now s s' out h =
      elim (decide_with_options-Decides x permission_id decision actor opts now s) [
        | inl (e, (a, rest)) ↦ absurd (clash _ out e (ap (λ (q : Permits × Answer). q.1) h) a)
        | inr (o, (k, (req, (i, (g, (p, (grant_id, (mid, (f, (same, b)))))))))) ↦
            let done = sym f ∙ h in
            let tight = subst (λ t. trim_space t ≡ t) (sym i) (trim_space_idem permission_id) in
            let there =
              subst (λ q. get o.id q ≡ some req) (sym same)
                (subst (λ j. get j s.requests ≡ some req) (sym i) g) in
            let (e, (got, tables)) =
              finish-decided o.id (outcome x o grant_id) mid req out tight there p
                (ap (λ (q : Permits × Answer). q.1) done) in
            let after : (finish o.id (outcome x o grant_id) mid).0 ≡ s' =
              ap (λ (q : Permits × Answer). q.0) done in
            (
              subst (λ j. get j s'.requests ≡ some out) i
                  (subst (λ (q : Permits). get o.id q.requests ≡ some out) after got),
              (
                state-decided o grant_id req out e,
                subst
                    (λ (q : Tables).
                      Answers (to_lower (trim_space decision)) s (record s { tables = q }) out)
                    (sym tables ∙ ap Permits.tables after)
                    (Backed-granted o s mid grant_id (to_lower (trim_space decision)) req out b
                      (choice_of-text _ o.choice k) e),
              ),
            )
      ]

  -- A decision is final: once a request is decided, no history of decisions changes it, and every
  -- other decision on it is refused.
  pub decide_with_options-final :
      (permission_id decision actor : Text) (opts : DecideOptions) (now : Time) (s s' : Permits)
      (out : Request)
      → decide_with_options x permission_id decision actor opts now s ≡ (s', decided out)
      → (cs : List Call) (decision' actor' : Text) (opts' : DecideOptions) (now' : Time)
      → (get (trim_space permission_id) (decide_all x cs s').requests ≡ some out)
        × ((e : DecideError) × ((decide_with_options x permission_id decision' actor' opts' now'
                (decide_all x cs s')).1
              ≡ refused e))
  decide_with_options-final permission_id decision actor opts now s s' out h cs decision' actor'
        opts' now' =
      let (there, (done, rest)) =
        decide_with_options-Leaves permission_id decision actor opts now s s' out h in
      let stays = decide_all-keeps cs (trim_space permission_id) s' out there done in
      (
        stays,
        decide_with_options-refuses permission_id decision' actor' opts' now' (decide_all x cs s')
            out stays done,
      )
