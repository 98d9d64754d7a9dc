-- ===== src/Events/Store.antt =====
-- internal/events/store.go and pkg/eventapi: the event store. The table is the list of its rows in
-- the order of insertion. Failures of the database and nil contexts are left out.
use auto_ze_agent.Common.{
  Bool, List, Option, Text, [], any, codes, eq_ℤ, false, if◌then◌else◌, is_blank, keep_if, leb,
  leb_ℤ, ltb, ltb_ℤ, none, not, pos, pos_part, some, take, text_eq, ℕ, ℤ, ◌&&◌, ◌++◌, ◌+◌, ◌==◌,
  ◌||◌, ◌∷◌,
}
use auto_ze_agent.Kernel.Base.{Time}

pub record Event : Type 0 where
  pub sequence : ℕ
  pub id : Text
  pub kind : Text
  pub aggregate_type : Text
  pub aggregate_id : Text
  pub aggregate_version : ℕ  -- uint64
  pub occurred_at : Time
  pub producer : Text
  pub schema_version : ℤ
  pub trace_id : Text
  pub causation_id : Text
  pub correlation_id : Text
  pub payload : Text

abbrev pub Log : Type 0
Log = List Event

-- What `Append` returns: the stored event, or which error.
pub data Reply : Type 0 where
  stored : Event → Reply
  invalid_event event_id_conflict append_failed : Reply

-- The required fields of `normalize`.
unfoldable pub has_required : Event → Bool
has_required e =
    not (is_blank e.id)
    && (not (is_blank e.kind)
        && (not (is_blank e.aggregate_type)
            && (not (is_blank e.aggregate_id) && not (is_blank e.producer))))

abbrev pub filled_payload : Text → Text
filled_payload [] = codes "{}"
filled_payload (c ∷ cs) = c ∷ cs

with_payload : Time → Event → Option Text → Option Event
with_payload clock e none = none
with_payload clock e (some p) =
    some
      (record e { occurred_at = if e.occurred_at == 0 then clock else e.occurred_at; payload = p })

-- `compact` stands for `json.Valid` and `json.Compact`: `none` is an invalid text.
module _ (compact : Text → Option Text) where
  -- `none` is `ErrInvalidEvent`.
  unfoldable pub normalize : Time → Event → Option Event
  unfolding with_payload has_required
  normalize clock e =
      if not (e.sequence == 0)
      then none
      else if not (has_required e)
      then none
      else if e.aggregate_version == 0
      then none
      else if leb_ℤ e.schema_version (pos 0)
      then none
      else with_payload clock e (compact (filled_payload e.payload))

unfoldable pub get_by_id : Text → Log → Option Event
get_by_id id [] = none
get_by_id id (e ∷ es) = let rest = get_by_id id es in if text_eq e.id id then some e else rest

-- The two UNIQUE constraints of the table.
unfoldable pub clashes_event : Event → Event → Bool
clashes_event new e =
    text_eq e.id new.id
    || (text_eq e.aggregate_type new.aggregate_type
        && (text_eq e.aggregate_id new.aggregate_id
            && (e.aggregate_version == new.aggregate_version)))

-- AUTOINCREMENT counts on from the largest sequence so far.
unfoldable pub last_sequence : Log → ℕ
last_sequence [] = 0
last_sequence (e ∷ es) =
    let rest = last_sequence es in if ltb rest e.sequence then e.sequence else rest

-- The INSERT, or `none` where it fails. The driver refuses a version that is no `int64`.
unfoldable pub insert_event : Event → Log → Option Event
insert_event e log =
    if any (clashes_event e) log || leb 9223372036854775808 e.aggregate_version
    then none
    else some (record e { sequence = last_sequence log + 1 })

unfoldable pub equivalent : Event → Event → Bool → Bool
equivalent s c compare_occurred_at =
    if not (
      text_eq s.id c.id
      && (text_eq s.kind c.kind
          && (text_eq s.aggregate_type c.aggregate_type
              && (text_eq s.aggregate_id c.aggregate_id
                  && ((s.aggregate_version == c.aggregate_version)
                      && (text_eq s.producer c.producer
                          && (eq_ℤ s.schema_version c.schema_version
                              && (text_eq s.trace_id c.trace_id
                                  && (text_eq s.causation_id c.causation_id
                                      && (text_eq s.correlation_id c.correlation_id
                                          && text_eq s.payload c.payload))))))))))
    then false
    else not compare_occurred_at || (s.occurred_at == c.occurred_at)

-- What is answered where the INSERT fails.
unfoldable pub resolve : Option Event → Event → Bool → Reply
resolve none candidate compare_occurred_at = append_failed
resolve (some existing) candidate compare_occurred_at =
    if equivalent existing candidate compare_occurred_at then stored existing else event_id_conflict

unfoldable pub appended : Event → Bool → Option Event → Log → Log × Reply
appended candidate compare_occurred_at (some new) log = (log ++ new ∷ [], stored new)
appended candidate compare_occurred_at none log =
    (log, resolve (get_by_id candidate.id log) candidate compare_occurred_at)

unfoldable pub append_normal : Bool → Option Event → Log → Log × Reply
append_normal compare_occurred_at none log = (log, invalid_event)
append_normal compare_occurred_at (some e) log =
    appended e compare_occurred_at (insert_event e log) log

-- `appendWith`: the log afterwards, and the answer.
unfoldable pub append : (Text → Option Text) → Time → Event → Log → Log × Reply
append compact clock e log =
    append_normal (not (e.occurred_at == 0)) (normalize compact clock e) log

unfoldable pub valid_limit : ℤ → Bool
valid_limit limit = not (leb_ℤ limit (pos 0) || ltb_ℤ (pos 1000) limit)

-- The rows of the log are in the order of their sequences.
unfoldable pub list_after : ℕ → ℤ → Log → Option (List Event)
list_after sequence limit log =
    if valid_limit limit
    then some (take (pos_part limit) (keep_if (λ e. ltb sequence e.sequence) log))
    else none

-- `ORDER BY aggregate_version`, which no two rows share.
unfoldable pub insert_by_version : Event → List Event → List Event
insert_by_version e [] = e ∷ []
insert_by_version e (d ∷ ds) =
    let rest = insert_by_version e ds in
    if ltb d.aggregate_version e.aggregate_version then d ∷ rest else e ∷ d ∷ ds

unfoldable pub sort_by_version : List Event → List Event
sort_by_version [] = []
sort_by_version (e ∷ es) = insert_by_version e (sort_by_version es)

abbrev pub of_aggregate : Text → Text → ℕ → Event → Bool
of_aggregate aggregate_type aggregate_id after_version e =
    text_eq e.aggregate_type aggregate_type
    && (text_eq e.aggregate_id aggregate_id && ltb after_version e.aggregate_version)

unfoldable pub list_aggregate : Text → Text → ℕ → ℤ → Log → Option (List Event)
list_aggregate aggregate_type aggregate_id after_version limit log =
    if is_blank aggregate_type || is_blank aggregate_id
    then none
    else if not (valid_limit limit)
    then none
    else some (
        take (pos_part limit)
          (sort_by_version (keep_if (of_aggregate aggregate_type aggregate_id after_version) log)))
