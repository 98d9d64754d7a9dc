-- ===== src/Kernel/Sessions.antt =====
-- internal/kernel/repository_session.go: the sessions in the database. Creating and closing a session
-- are one transaction each. The other changes are two statements without a transaction: the session is
-- read, and later all of its metadata is written.
use auto_ze_agent.Common.{
  List, Option, Text, [], codes, find_row, if◌then◌else◌, is_blank, is_some, leb, none, not, some,
  text_eq, trim_space, update_rows, ℕ, ◌&&◌, ◌++◌, ◌==◌, ◌∷◌,
}
use auto_ze_agent.Kernel.Base.{Time, Error, version_conflict, not_found, ok, err}
use auto_ze_agent.Kernel.Session.{
  Session, SessionState, new_session, normalize_permission_stance, close,
}
use auto_ze_agent.Kernel.Metadata.{
  Metadata, meta_string_field, session_metadata_encode, permission_stance_from_metadata,
  normalize_model,
}
use auto_ze_agent.Kernel.Store.{
  StoreError, kernel_error, already_exists, event_refused, out_of_range, aggregate_event,
}
use auto_ze_agent.Events.Store.{Log, Reply, stored, append}

pub record Row : Type 0 where
  pub session_id : Text
  pub state : SessionState
  pub version : ℕ
  pub created_at : Time
  pub updated_at : Time
  pub metadata : Metadata

pub record SessionTable : Type 0 where
  pub rows : List Row
  pub log : Log

pub data SessionReply : Type 0 where
  committed : SessionTable → Session → SessionReply
  rolled_back : StoreError → SessionReply

unfoldable pub scan_session : Row → Session
scan_session row = record {
  id = row.session_id;
  state = row.state;
  version = row.version;
  created_at = row.created_at;
  updated_at = row.updated_at;
  workspace = meta_string_field row.metadata (codes "workspace");
  preferred_model = meta_string_field row.metadata (codes "model");
  permission_stance = permission_stance_from_metadata row.metadata;
}

unfoldable pub get_session : Text → SessionTable → Option Session
get_session id db = elim (find_row Row.session_id id db.rows) [
  | none ↦ none
  | some row ↦ some (scan_session row)
]

abbrev pub row_of : Session → Row
row_of s = record {
  session_id = s.id;
  state = s.state;
  version = s.version;
  created_at = s.created_at;
  updated_at = s.updated_at;
  metadata = session_metadata_encode s.workspace [] s.permission_stance;
}

unfoldable pub reply_of : List Row → Session → Log × Reply → SessionReply
reply_of rows s (log, stored e) = committed (record { rows = rows; log = log }) s
reply_of rows s (log, _) = rolled_back event_refused

abbrev pub closed_row : Session → Row → Row
closed_row s row = record row { state = s.state; version = s.version; updated_at = s.updated_at }

-- `encode` stands for `json.Marshal` of an event's payload, `compact` for what the event store
-- makes of it.
module _ (compact : Text → Option Text) where
  unfoldable pub insert_session : (Session → Text) → Time → Session → SessionTable → SessionReply
  insert_session encode clock s db =
      if is_some (find_row Row.session_id s.id db.rows)
      then rolled_back already_exists
      else reply_of (db.rows ++ row_of s ∷ []) s (
          append compact clock
            (aggregate_event (codes "session") s.id s.version (codes "session.created") s.created_at
              (encode s))
            db.log)

  unfoldable pub create_session_with_workspace :
      (Session → Text) → Time → Text → Text → Text → Time → SessionTable → SessionReply
  create_session_with_workspace encode clock id workspace stance now db =
      elim (new_session clock id now) [
        | err e ↦ rolled_back (kernel_error e)
        | ok s ↦ elim (normalize_permission_stance stance) [
          | err e ↦ rolled_back (kernel_error e)
          | ok normalized ↦
              insert_session encode clock
                (record s { workspace = trim_space workspace; permission_stance = normalized }) db
        ]
      ]

  unfoldable pub write_closed :
      (SessionState → Session → Text)
      → Time
      → SessionState
      → ℕ
      → SessionTable
      → Session × Option Error
      → SessionReply
  write_closed encode clock previous expected db (s, some e) = rolled_back (kernel_error e)
  write_closed encode clock previous expected db (s, none) =
      let u =
        update_rows (λ row. text_eq row.session_id s.id && (row.version == expected)) (closed_row s)
          db.rows in
      if leb 9223372036854775808 s.version
      then rolled_back out_of_range
      else if not (u.1 == 1)
      then rolled_back (kernel_error version_conflict)
      else reply_of u.0 s (
          append compact clock
            (aggregate_event (codes "session") s.id s.version (codes "session.state_changed")
              s.updated_at (encode previous s))
            db.log)

  unfoldable pub close_found :
      (SessionState → Session → Text)
      → Time
      → ℕ
      → Time
      → SessionTable
      → Option Session
      → SessionReply
  close_found encode clock expected now db none = rolled_back (kernel_error not_found)
  close_found encode clock expected now db (some s) =
      if not (s.version == expected)
      then rolled_back (kernel_error version_conflict)
      else write_closed encode clock s.state expected db (close clock now s)

  unfoldable pub close_session :
      (SessionState → Session → Text) → Time → Text → ℕ → Time → SessionTable → SessionReply
  close_session encode clock id expected now db =
      close_found encode clock expected now db (get_session id db)

abbrev pub with_metadata : Metadata → Time → Row → Row
with_metadata m now row = record row { metadata = m; updated_at = now }

-- `UPDATE sessions SET metadata = ?, updated_at = ? WHERE session_id = ?`.
unfoldable pub write_metadata : Text → Metadata → Time → SessionTable → SessionTable
write_metadata id m now db = record db {
  rows = (update_rows (λ (row : Row). text_eq row.session_id id) (with_metadata m now) db.rows).0;
}

-- A write of metadata that a change has still to do.
pub record Write : Type 0 where
  pub session_id : Text
  pub metadata : Metadata

-- What a change comes to before its UPDATE.
pub data Read : Type 0 where
  failed : Error → Read
  unchanged : Read
  pending : Write → Read

unfoldable pub perform : Write → Time → SessionTable → SessionTable
perform w now db = write_metadata w.session_id w.metadata now db

-- What a change is going to write, from the session that it has read.
unfoldable pub change_metadata : Text → (Session → Option Metadata) → Option Session → Read
change_metadata id change none = failed not_found
change_metadata id change (some s) = elim (change s) [
  | none ↦ unchanged
  | some m ↦ pending (record { session_id = id; metadata = m })
]

-- The three changes as far as their UPDATE, which `perform` does.
unfoldable pub ensure_session_workspace : Text → Text → SessionTable → Read
ensure_session_workspace id workspace db =
    if is_blank workspace
    then unchanged
    else change_metadata id
        (λ s.
          if is_blank s.workspace
          then some
              (session_metadata_encode (trim_space workspace) s.preferred_model s.permission_stance)
          else none)
        (get_session id db)

unfoldable pub set_session_preferred_model : Text → Text → SessionTable → Read
set_session_preferred_model id model db = elim (normalize_model model) [
  | err e ↦ failed e
  | ok m ↦
      change_metadata id (λ s. some (session_metadata_encode s.workspace m s.permission_stance))
        (get_session id db)
]

unfoldable pub set_session_permission_stance : Text → Text → SessionTable → Read
set_session_permission_stance id stance db = elim (normalize_permission_stance stance) [
  | err e ↦ failed e
  | ok st ↦
      change_metadata id (λ s. some (session_metadata_encode s.workspace s.preferred_model st))
        (get_session id db)
]
