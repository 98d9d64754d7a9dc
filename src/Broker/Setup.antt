-- ===== src/Broker/Setup.antt =====
-- internal/tools/broker.go: the construction and the wiring of a broker. The audit store, which is
-- made from the database, is left out.
use auto_ze_agent.Common.{
  Bool, Option, [], if◌then◌else◌, is_some, leb_ℤ, map, none, not, pos, pos_part, some, ℤ, ◌||◌,
}
use auto_ze_agent.Policy.{Rules}
use auto_ze_agent.Broker.Requests.{Tool}
use auto_ze_agent.Broker.Schemas.{Entry}
use auto_ze_agent.Broker.Execute.{Broker}

-- `has_stores` says that the database, the approvals and the artifacts are there.
pub record Config : Type 0 where
  pub has_stores : Bool
  pub policy : Option Rules
  pub artifact_threshold : ℤ
  pub maximum_timeout : ℤ
  pub has_permission : Bool

unfoldable pub new_broker : Config → Option Broker
new_broker c =
    if not c.has_stores || not (is_some c.policy)
    then none
    else some (record {
      registry = [];
      policy = c.policy;
      maximum_timeout =
          if leb_ℤ c.maximum_timeout (pos 0) then pos 600000000000 else c.maximum_timeout;
      artifact_threshold =
          if leb_ℤ c.artifact_threshold (pos 0) then 65536 else pos_part c.artifact_threshold;
      has_permission = c.has_permission;
    })

abbrev pub set_permission : Bool → Broker → Broker
set_permission has_gate b = record b { has_permission = has_gate }

-- `attach` is what `SetCheckpointer` makes of a file tool; it leaves any other tool as it is.
unfoldable pub set_edit_checkpointer : (Tool → Tool) → Broker → Broker
set_edit_checkpointer attach b = record b {
  registry = map (λ (e : Entry). record e { tool = attach e.tool }) b.registry;
}
