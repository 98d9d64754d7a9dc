-- ===== src/Kernel/SessionExamples.antt =====
-- The theorem on internal/kernel/repository_session.go at one session.
use auto_ze_agent.Common.{
  List, [], codes, find_row, refl, some, text_eq, to_lower, lower_rune, trim_left, trim_right,
  trim_space, update_rows, ◌∷◌, ◌≡◌,
}
use auto_ze_agent.Kernel.Session.{Session, active, normalize_permission_stance}
use auto_ze_agent.Kernel.Metadata.{
  field_of, meta_string_field, entry_of, session_metadata_encode, permission_stance_from_metadata,
  cut_slash, provider_model, normalize_model,
}
use auto_ze_agent.Kernel.Sessions.{
  perform, Row, SessionTable, scan_session, get_session, write_metadata, change_metadata,
  ensure_session_workspace, set_session_preferred_model,
}
use auto_ze_agent.Kernel.Writes.{
  Step, Store, StaysIn, binds, sets_model, sets_stance, closes, writes, opened, pick, written,
  run_step, run_steps, run_steps-StaysIn,
}

abbrev row : Row
row = record {
  session_id = codes "z";
  state = active;
  version = 1;
  created_at = 10;
  updated_at = 10;
  metadata = (codes "workspace", codes "/w") ∷ [];
}

abbrev table : SessionTable
table = record { rows = row ∷ []; log = [] }

abbrev session : Session
session = record {
  id = codes "z";
  state = active;
  version = 1;
  created_at = 10;
  updated_at = 10;
  workspace = codes "/w";
  preferred_model = [];
  permission_stance = codes "agent";
}

reads_session : get_session (codes "z") table ≡ some session
unfolding get_session scan_session find_row meta_string_field field_of
    permission_stance_from_metadata normalize_permission_stance text_eq to_lower lower_rune
    trim_space trim_left trim_right
reads_session = refl

abbrev store : Store
store = record { db = table; open_writes = [] }

-- The two changes read before either writes.
abbrev steps : List Step
steps =
    binds (codes "z") (codes "/v")
    ∷ sets_model (codes "z") (codes "p / m")
    ∷ sets_stance (codes "z") (codes "Plan")
    ∷ writes 1 12
    ∷ closes (λ state s. codes "{}") 14 (codes "z") 1 14
    ∷ writes 0 15
    ∷ []

run_steps-StaysIn_example : StaysIn (codes "z") session (run_steps some steps store)
run_steps-StaysIn_example = run_steps-StaysIn some (codes "z") session steps store reads_session tt

-- The second binding is passed over, and the model is put beside the workspace.
binds_once :
    (run_steps some
      (binds (codes "z") (codes "/v") ∷ sets_model (codes "z") (codes "p / m") ∷ writes 0 12 ∷ [])
      store).db.rows
    ≡ record row {
      updated_at = 12;
      metadata = (codes "workspace", codes "/w") ∷ (codes "model", codes "p/m") ∷ [];
    }
      ∷ []
unfolding run_steps run_step opened pick written perform ensure_session_workspace
    set_session_preferred_model normalize_model provider_model cut_slash change_metadata
    write_metadata update_rows session_metadata_encode entry_of get_session scan_session find_row
    meta_string_field field_of permission_stance_from_metadata normalize_permission_stance text_eq
    to_lower lower_rune trim_space trim_left trim_right
binds_once = refl

-- A change that has read before the binding writes after it: the workspace is gone.
unbinds :
    (run_steps some
      (sets_model (codes "z") (codes "p/m")
        ∷ binds (codes "z") (codes "/v")
        ∷ writes 1 12
        ∷ writes 0 13
        ∷ [])
      (record store { db = record table { rows = record row { metadata = [] } ∷ [] } })).db.rows
    ≡ record row { updated_at = 13; metadata = (codes "model", codes "p/m") ∷ [] } ∷ []
unfolding run_steps run_step opened pick written perform ensure_session_workspace
    set_session_preferred_model normalize_model provider_model cut_slash change_metadata
    write_metadata update_rows session_metadata_encode entry_of get_session scan_session find_row
    meta_string_field field_of permission_stance_from_metadata normalize_permission_stance text_eq
    to_lower lower_rune trim_space trim_left trim_right
unbinds = refl
