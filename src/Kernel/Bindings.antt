-- ===== src/Kernel/Bindings.antt =====
-- What the changes of a session keep (internal/kernel/repository_session.go).
use auto_ze_agent.Common.{
  Bool, Bool-cases, Option, Option-cases, Text, [], ap, arith, codes, false, find_row,
  find_row-update_rows, find_row_key, inl, inr, is_blank, none, refl, some, subst, sym, text_eq,
  text_eq_iff, text_eq_refl, trim_left, trim_right, trim_space, trim_space_idem, true, update_rows,
  ◌++◌, ◌∙◌, ◌∷◌, ◌≡◌, ◌⊎◌,
}
use auto_ze_agent.Kernel.Base.{Time}
use auto_ze_agent.Kernel.Session.{Session, active}
use auto_ze_agent.Kernel.Metadata.{
  Metadata, field_of, trimmed, meta_string_field, entry_of, session_metadata_encode,
}
use auto_ze_agent.Kernel.Sessions.{
  Row, SessionTable, scan_session, get_session, with_metadata, write_metadata, change_metadata,
  Write, Read, pending, perform,
}
use auto_ze_agent.Events.Store.{Log}

field_of-skip :
    (key k v : Text) (m : Metadata)
    → text_eq k key ≡ false
    → field_of key (entry_of k v ++ m) ≡ field_of key m
unfolding field_of entry_of
field_of-skip key k [] m h = refl
field_of-skip key k (c ∷ v) m h = rw h refl

field_of-none : (key k v : Text) → text_eq k key ≡ false → field_of key (entry_of k v) ≡ none
unfolding field_of entry_of
field_of-none key k [] h = refl
field_of-none key k (c ∷ v) h = rw h refl

trimmed-entry :
    (k v : Text) (m : Metadata)
    → field_of k m ≡ none
    → trim_space v ≡ v
    → trimmed (field_of k (entry_of k v ++ m)) ≡ v
unfolding field_of entry_of
trimmed-entry k [] m n h = rw n refl
trimmed-entry k (c ∷ v) m n h = rw (text_eq_refl k) h

-- The workspace that is read from the metadata is the one that was encoded.
encode-workspace :
    (w model stance : Text)
    → meta_string_field (session_metadata_encode w model stance) (codes "workspace") ≡ trim_space w
unfolding meta_string_field session_metadata_encode
encode-workspace w model stance =
    trimmed-entry (codes "workspace") (trim_space w) _
      (field_of-skip (codes "workspace") (codes "model") (trim_space model) _
          (unfold text_eq in refl)
        ∙ field_of-none (codes "workspace") (codes "permission_stance") _ (unfold text_eq in refl))
      (trim_space_idem w)

pub encoded-workspace :
    (w model stance : Text) (m : Metadata)
    → some (session_metadata_encode w model stance) ≡ some m
    → meta_string_field m (codes "workspace") ≡ trim_space w
encoded-workspace w model stance m h =
    let same : session_metadata_encode w model stance ≡ m = ground arith in
    subst (λ x. meta_string_field x (codes "workspace") ≡ trim_space w) same
      (encode-workspace w model stance)

-- A workspace that is bound stays, a session changes its state only if it was active, and its
-- creation stays.
abbrev pub Lasts : Session → Session → Type 0
Lasts s s' =
    ((is_blank s.workspace ≡ true) ⊎ (s'.workspace ≡ s.workspace))
    × ((s.state ≡ active) ⊎ (s'.state ≡ s.state))
    × (s'.created_at ≡ s.created_at)

abbrev pub LastsIn : Text → Session → SessionTable → Type 0
LastsIn id s db = (s' : Session) × (get_session id db ≡ some s') × Lasts s s'

pub Lasts-refl : (s : Session) → Lasts s s
Lasts-refl s = (inr refl, inr refl, refl)

pub Lasts-trans : (s t u : Session) → Lasts s t → Lasts t u → Lasts s u
Lasts-trans s t u (w, x, c) (w', x', c') = (
  elim w [ inl e ↦ inl e | inr e ↦ elim w' [ inl f ↦ inl (rw e at f) | inr f ↦ inr (f ∙ e) ] ],
  ground (arith, x, x'),
  c' ∙ c,
)

pub get_session-row :
    (id : Text) (db : SessionTable) (s : Session)
    → get_session id db ≡ some s
    → (row : Row) × (find_row Row.session_id id db.rows ≡ some row) × (s ≡ scan_session row)
unfolding get_session
get_session-row id db s h = elim (Option-cases (find_row Row.session_id id db.rows)) [
  | inl e ↦ absurd (ground (arith, rw (get_session, e) at h))
  | inr (row, e) ↦ (row, e, ground (arith, rw (get_session, e) at h))
]

pub get_session-found :
    (id : Text) (db : SessionTable) (row : Row)
    → find_row Row.session_id id db.rows ≡ some row
    → get_session id db ≡ some (scan_session row)
unfolding get_session
get_session-found id db row h = rw (get_session, h) refl

-- An update of rows, seen at one session.
pub updated-LastsIn :
    (id : Text) (db : SessionTable) (log : Log) (s : Session) (p : Row → Bool) (f : Row → Row)
    → ((row : Row) → (f row).session_id ≡ row.session_id)
    → ((row : Row)
        → find_row Row.session_id id db.rows ≡ some row
        → p row ≡ true
        → Lasts (scan_session row) (scan_session (f row)))
    → get_session id db ≡ some s
    → LastsIn id s (record { rows = (update_rows p f db.rows).0; log = log })
updated-LastsIn id db log s p f keeps lasts h =
    let (row, found, same) = get_session-row id db s h in
    let seen = find_row-update_rows Row.session_id id p f db.rows keeps in
    let new : SessionTable = record { rows = (update_rows p f db.rows).0; log = log } in
    elim (Bool-cases (p row)) [
      | inl e ↦ (
        scan_session (f row),
        get_session-found id new (f row) (seen ∙ (rw (found, e) refl)),
        subst (λ x. Lasts x (scan_session (f row))) (sym same) (lasts row found e),
      )
      | inr e ↦ (
        scan_session row,
        get_session-found id new row (seen ∙ (rw (found, e) refl)),
        subst (λ x. Lasts x (scan_session row)) (sym same) (Lasts-refl (scan_session row)),
      )
    ]

-- What a change may write: the workspace that was bound is encoded again.
abbrev Rebinds : (Session → Option Metadata) → Type 0
Rebinds change =
    (s : Session) (m : Metadata)
    → change s ≡ some m
    → (is_blank s.workspace ≡ true)
      ⊎ (meta_string_field m (codes "workspace") ≡ trim_space s.workspace)

trimmed_idem : (o : Option Text) → trim_space (trimmed o) ≡ trimmed o
trimmed_idem none = unfold trim_space trim_left trim_right in refl
trimmed_idem (some v) = trim_space_idem v

pub same_row :
    (id i : Text) (db : SessionTable) (row read : Row)
    → find_row Row.session_id id db.rows ≡ some row
    → find_row Row.session_id i db.rows ≡ some read
    → text_eq row.session_id i ≡ true
    → row ≡ read
same_row id i db row read found there q =
    let same_id =
      sym (find_row_key Row.session_id id db.rows row found) ∙ (text_eq_iff row.session_id i).0 q in
    let here = subst (λ x. find_row Row.session_id x db.rows ≡ some row) same_id found in cc

-- A write for another session, or one that carries the workspace that the session had.
abbrev pub Keeps : Text → Session → Write → Type 0
Keeps id s w =
    (text_eq w.session_id id ≡ false)
    ⊎ ((is_blank s.workspace ≡ true)
        ⊎ (meta_string_field w.metadata (codes "workspace") ≡ s.workspace))

-- What is read for a session that lasts keeps its workspace when it is written.
abbrev pub ReadKeeps : Text → Session → Read → Type 0
ReadKeeps id s r = (w : Write) → r ≡ pending w → Keeps id s w

pub perform-LastsIn :
    (id : Text) (w : Write) (now : Time) (db : SessionTable) (s : Session)
    → Keeps id s w
    → LastsIn id s db
    → LastsIn id s (perform w now db)
unfolding perform write_metadata scan_session
perform-LastsIn id w now db s keeps (t, found, (bound, state, created)) =
    let (row, there, same) = get_session-row id db t found in
    let p : Row → Bool = λ row. text_eq row.session_id w.session_id in
    let f = with_metadata w.metadata now in
    let new : SessionTable = record { rows = (update_rows p f db.rows).0; log = db.log } in
    let seen = find_row-update_rows Row.session_id id p f db.rows (λ row. refl) in
    elim (Bool-cases (p row)) [
      | inl e ↦ (
        scan_session (f row),
        get_session-found id new (f row) (seen ∙ (rw (there, e) refl)),
        (
          elim keeps [
            | inl other ↦
                let own = find_row_key Row.session_id id db.rows row there in
                let hit = (text_eq_iff row.session_id w.session_id).0 e in
                let here : w.session_id ≡ id = sym hit ∙ own in
                absurd (ground (arith, other, (text_eq_iff w.session_id id).1 here))
            | inr k ↦ k
          ],
          subst (λ (x : Session). (s.state ≡ active) ⊎ (x.state ≡ s.state)) same state,
          subst (λ (x : Session). x.created_at ≡ s.created_at) same created,
        ),
      )
      | inr e ↦ (
        t,
        get_session-found id new row (seen ∙ (rw (there, e) refl)) ∙ ap some (sym same),
        (bound, state, created),
      )
    ]

pub change_metadata-ReadKeeps :
    (id i : Text) (change : Session → Option Metadata) (db : SessionTable) (s : Session)
    → Rebinds change
    → LastsIn id s db
    → ReadKeeps id s (change_metadata i change (get_session i db))
unfolding change_metadata
change_metadata-ReadKeeps id i change db s rebinds (u, found, (bound, state, created)) w h =
    elim (Option-cases (get_session i db)) [
      | inl e ↦ absurd (ground (arith, rw e at h))
      | inr (t, e) ↦ elim (Option-cases (change t)) [
        | inl k ↦ absurd (ground (arith, rw (e, change_metadata, k) at h))
        | inr (m, k) ↦
            let is : record { session_id = i; metadata = m } ≡ w =
              ground (arith, rw (e, change_metadata, k) at h) in
            subst (Keeps id s) is (carried t m e k)
      ]
    ]
  where
    carried :
        (t : Session) (m : Metadata)
        → get_session i db ≡ some t
        → change t ≡ some m
        → Keeps id s (record { session_id = i; metadata = m })
    carried t m e k = elim (Bool-cases (text_eq i id)) [
      | inr other ↦ inl other
      | inl own ↦
          let one : t ≡ u = same_read t e ((text_eq_iff i id).0 own) in
          elim bound [
            | inl blank ↦ inr (inl blank)
            | inr kept ↦ elim (rebinds t m k) [
              | inl blank ↦
                  inr (inl (subst (λ x. is_blank x ≡ true) (ap Session.workspace one ∙ kept) blank))
              | inr again ↦ inr (inr (again ∙ tight t e ∙ ap Session.workspace one ∙ kept))
            ]
          ]
    ]
      where
        same_read : (t : Session) → get_session i db ≡ some t → i ≡ id → t ≡ u
        same_read t e j =
            let there = subst (λ x. get_session x db ≡ some t) j e in ground (arith, there, found)

        tight : (t : Session) → get_session i db ≡ some t → trim_space t.workspace ≡ t.workspace
        tight t e =
            let (row, there, same) = get_session-row i db t e in
            subst (λ (x : Session). trim_space x.workspace ≡ x.workspace) (sym same)
              (unfold scan_session in
                unfold meta_string_field in
                trimmed_idem (field_of (codes "workspace") row.metadata))
