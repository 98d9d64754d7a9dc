-- ===== src/Events/Examples.antt =====
-- The theorems on internal/events at concrete events, and tests of the definitions.
use auto_ze_agent.Common.{
  List, [], arith, codes, eq_ℤ, keep_if, pos, refl, some, take, text_eq, trim_space, true, ℕ, ◌++◌,
  ◌+◌, ◌∷◌, ◌≡◌,
}
use auto_ze_agent.Kernel.Base.{Time}
use auto_ze_agent.Events.Store.{
  Event, Log, stored, event_id_conflict, has_required, normalize, get_by_id, clashes_event,
  last_sequence, insert_event, equivalent, resolve, appended, append_normal, append, valid_limit,
  list_after, insert_by_version, sort_by_version, list_aggregate,
}
use auto_ze_agent.Events.Order.{IsLog, append_all, append_all-IsLog}
use auto_ze_agent.Events.Pages.{after, list_after-pages}
use auto_ze_agent.Events.Upcast.{
  Registry, done, new_registry, set_current_version, register, checked, upcast_once, upcast_loop,
  with_upcast, upcast_to, upcast,
}

abbrev event : ℕ → Event
event v = record {
  sequence = 0;
  id = v ∷ [];
  kind = codes "task.created";
  aggregate_type = codes "task";
  aggregate_id = codes "t";
  aggregate_version = v;
  occurred_at = 0;
  producer = codes "kernel";
  schema_version = pos 1;
  trace_id = [];
  causation_id = [];
  correlation_id = [];
  payload = codes "{}";
}

abbrev calls : List (Time × Event)
calls = (5, event 65) ∷ (6, event 66) ∷ (7, event 65) ∷ (8, event 67) ∷ []

abbrev row : ℕ → ℕ → Time → Event
row s v t = record (event v) { sequence = s; occurred_at = t }

abbrev log : Log
log = row 1 65 5 ∷ row 2 66 6 ∷ row 3 67 8 ∷ []

appends_all : append_all some calls [] ≡ log
unfolding append_all append append_normal normalize has_required insert_event clashes_event
    last_sequence appended resolve equivalent get_by_id text_eq eq_ℤ trim_space
appends_all = refl

append_all-IsLog_example :
    IsLog 0 (append_all some calls []) × ((new : Log) × (append_all some calls [] ≡ [] ++ new))
append_all-IsLog_example = append_all-IsLog some calls [] tt

log-IsLog : IsLog 0 log
unfolding clashes_event text_eq
log-IsLog = (omega arith, refl, (omega arith, refl, (omega arith, refl, tt)))

first_page : list_after 0 (pos 2) log ≡ some (row 1 65 5 ∷ row 2 66 6 ∷ [])
unfolding list_after valid_limit
first_page = refl

second_page :
    list_after (last_sequence (row 1 65 5 ∷ row 2 66 6 ∷ [])) (pos 2) log ≡ some (row 3 67 8 ∷ [])
unfolding list_after valid_limit last_sequence
second_page = refl

list_after-pages_example :
    (row 1 65 5 ∷ row 2 66 6 ∷ []) ++ (row 3 67 8 ∷ []) ≡ take (2 + 2) (keep_if (after 0) log)
list_after-pages_example =
    list_after-pages log 0 2 2 (row 1 65 5 ∷ row 2 66 6 ∷ []) (row 3 67 8 ∷ []) log-IsLog first_page
      refl second_page

lists_aggregate :
    list_aggregate (codes "task") (codes "t") 65 (pos 9) (row 2 66 6 ∷ row 1 65 5 ∷ [])
    ≡ some (row 2 66 6 ∷ [])
unfolding list_aggregate valid_limit sort_by_version insert_by_version text_eq trim_space
lists_aggregate = refl

appends_first : append some 5 (event 65) [] ≡ (row 1 65 5 ∷ [], stored (row 1 65 5))
unfolding append append_normal normalize has_required insert_event clashes_event last_sequence
    appended text_eq trim_space
appends_first = refl

-- The same ID with another payload is refused.
conflicts :
    (append some 9 (record (event 65) { payload = codes "[]" }) (row 1 65 5 ∷ [])).1
    ≡ event_id_conflict
unfolding append append_normal normalize has_required insert_event clashes_event last_sequence
    appended resolve equivalent get_by_id text_eq eq_ℤ trim_space
conflicts = refl

-- Version 1 is upcast by appending "!".
abbrev registry : Registry
unfolding register set_current_version new_registry text_eq
registry =
    (register (codes "task.created") (pos 1) (some (λ p. some (p ++ codes "!")))
      (set_current_version (codes "task.created") (pos 2) new_registry).0).0

upcasts :
    upcast (λ p. true) registry (event 65)
    ≡ done (record (event 65) { payload = codes "{}!"; schema_version = pos 2 })
unfolding upcast upcast_to upcast_loop upcast_once checked with_upcast registry register
    set_current_version new_registry text_eq eq_ℤ
upcasts = refl
