-- ===== src/Kernel/Lasting.antt =====
-- What creating and closing keep of the sessions (internal/kernel/repository_session.go).
use auto_ze_agent.Common.{
  find_row-append, Bool, List, Option, Option-cases, Text, [], ap, arith, false, find_row_key,
  if◌then◌else◌, inl, inr, leb, none, not, refl, some, subst, sym, text_eq, true, update_rows, ℕ,
  ◌&&◌, ◌++◌, ◌==◌, ◌∙◌, ◌∷◌, ◌≡◌, ◌⊎◌,
}
use auto_ze_agent.Kernel.Base.{version_conflict, Time, Error, Result, ok, err}
use auto_ze_agent.Kernel.Session.{
  Session, SessionState, active, new_session, normalize_permission_stance, close,
}
use auto_ze_agent.Kernel.Store.{StoreError, kernel_error, out_of_range}
use auto_ze_agent.Kernel.Sessions.{
  Row, SessionTable, SessionReply, committed, rolled_back, scan_session, get_session, row_of,
  reply_of, insert_session, create_session_with_workspace, closed_row, write_closed, close_found,
  close_session,
}
use auto_ze_agent.Events.Store.{Log, Reply, stored, invalid_event, event_id_conflict, append_failed}
use auto_ze_agent.Kernel.Bindings.{
  LastsIn, Lasts-refl, get_session-row, get_session-found, updated-LastsIn, same_row,
}

pub Result-cases {ℓ} :
    {A : Type ℓ} (r : Result A) → ((e : Error) × (r ≡ err e)) ⊎ ((a : A) × (r ≡ ok a))
Result-cases (err e) = inl (e, refl)
Result-cases (ok a) = inr (a, refl)

-- A transaction that fails leaves the table as it was.
unfoldable pub table_after : SessionTable → SessionReply → SessionTable
table_after db (committed after s) = after
table_after db (rolled_back e) = db

reply_of-LastsIn :
    (id : Text) (s t : Session) (db : SessionTable) (rows : List Row) (x : Log × Reply)
    → LastsIn id s db
    → ((log : Log) → LastsIn id s (record { rows = rows; log = log }))
    → LastsIn id s (table_after db (reply_of rows t x))
unfolding reply_of table_after
reply_of-LastsIn id s t db rows (log, stored e) old new = new log
reply_of-LastsIn id s t db rows (log, invalid_event) old new = old
reply_of-LastsIn id s t db rows (log, event_id_conflict) old new = old
reply_of-LastsIn id s t db rows (log, append_failed) old new = old

rolled_back-LastsIn :
    (id : Text) (s : Session) (db : SessionTable) (e : StoreError)
    → get_session id db ≡ some s
    → LastsIn id s (table_after db (rolled_back e))
unfolding table_after
rolled_back-LastsIn id s db e h = (s, h, Lasts-refl s)

if-LastsIn :
    (id : Text) (s : Session) (db : SessionTable) (c : Bool) (x y : SessionReply)
    → LastsIn id s (table_after db x)
    → LastsIn id s (table_after db y)
    → LastsIn id s (table_after db (if c then x else y))
if-LastsIn id s db true x y p q = p
if-LastsIn id s db false x y p q = q

close-active :
    (clock now : Time) (s t : Session)
    → close clock now s ≡ (t, none)
    → (s.state ≡ active) × (t.id ≡ s.id)
unfolding close
close-active clock now s t h = (ground arith, ground arith)

first_true : (a b : Bool) → (a && b) ≡ true → a ≡ true
first_true true b h = refl
first_true false b h = h

module _ (compact : Text → Option Text) where
  write_closed-LastsIn :
      (encode : SessionState → Session → Text) (clock now : Time) (id i : Text) (expected : ℕ)
      (db : SessionTable) (s t : Session) (o : Session × Option Error)
      → get_session id db ≡ some s
      → get_session i db ≡ some t
      → close clock now t ≡ o
      → LastsIn id s (table_after db (write_closed compact encode clock t.state expected db o))
  unfolding write_closed scan_session
  write_closed-LastsIn encode clock now id i expected db s t (u, some e) h k c =
      rolled_back-LastsIn id s db _ h
  write_closed-LastsIn encode clock now id i expected db s t (u, none) h k c =
      let hit : Row → Bool = λ row. text_eq row.session_id u.id && (row.version == expected) in
      if-LastsIn id s db (leb 9223372036854775808 u.version) _ _
        (rolled_back-LastsIn id s db out_of_range h)
        (if-LastsIn id s db (not ((update_rows hit (closed_row u) db.rows).1 == 1)) _ _
          (rolled_back-LastsIn id s db (kernel_error version_conflict) h)
          (reply_of-LastsIn id s u db _ _ (s, h, Lasts-refl s)
            (λ log.
              updated-LastsIn id db log s hit (closed_row u) (λ row. refl)
                (λ row found q.
                  let (read, there, same) = get_session-row i db t k in
                  let (act, tid) = close-active clock now t u c in
                  let hit =
                    subst (λ x. text_eq row.session_id x ≡ true)
                      (tid
                        ∙ (ap Session.id same ∙ find_row_key Row.session_id i db.rows read there))
                      (first_true _ _ q) in
                  let one = same_row id i db row read found there hit in
                  (inr refl, inl (ap Session.state (ap scan_session one ∙ sym same) ∙ act), refl))
                h)))

  pub close_session-LastsIn :
      (encode : SessionState → Session → Text) (clock now : Time) (id i : Text) (expected : ℕ)
      (db : SessionTable) (s : Session)
      → get_session id db ≡ some s
      → LastsIn id s (table_after db (close_session compact encode clock i expected now db))
  unfolding close_session close_found
  close_session-LastsIn encode clock now id i expected db s h =
      elim (Option-cases (get_session i db)) [
        | inl e ↦ rw (close_session, e) (rolled_back-LastsIn id s db _ h)
        | inr (t, e) ↦
            rw (close_session, e)
              (if-LastsIn id s db (not (t.version == expected)) _ _
                (rolled_back-LastsIn id s db _ h)
                (write_closed-LastsIn encode clock now id i expected db s t _ h e refl))
      ]

  insert_session-LastsIn :
      (encode : Session → Text) (clock : Time) (id : Text) (db : SessionTable) (s t : Session)
      → get_session id db ≡ some s
      → LastsIn id s (table_after db (insert_session compact encode clock t db))
  unfolding insert_session
  insert_session-LastsIn encode clock id db s t h =
      let (row, found, same) = get_session-row id db s h in
      if-LastsIn id s db _ _ _ (rolled_back-LastsIn id s db _ h) (
        reply_of-LastsIn id s t db _ _ (s, h, Lasts-refl s)
          (λ log. (
            s,
            get_session-found id (record { rows = db.rows ++ row_of t ∷ []; log = log }) row
                  (find_row-append Row.session_id id db.rows (row_of t ∷ []) row found)
                ∙ ap some (sym same),
            Lasts-refl s,
          )))

  pub create_session-LastsIn :
      (encode : Session → Text) (clock now : Time) (id i workspace stance : Text)
      (db : SessionTable) (s : Session)
      → get_session id db ≡ some s
      → LastsIn id s (
          table_after db
            (create_session_with_workspace compact encode clock i workspace stance now db))
  unfolding create_session_with_workspace
  create_session-LastsIn encode clock now id i workspace stance db s h =
      elim (Result-cases (new_session clock i now)) [
        | inl (e, k) ↦ rw (create_session_with_workspace, k) (rolled_back-LastsIn id s db _ h)
        | inr (t, k) ↦ elim (Result-cases (normalize_permission_stance stance)) [
          | inl (e, q) ↦ rw (create_session_with_workspace, k, q) (rolled_back-LastsIn id s db _ h)
          | inr (n, q) ↦
              rw (create_session_with_workspace, k, q)
                (insert_session-LastsIn encode clock id db s _ h)
        ]
      ]
