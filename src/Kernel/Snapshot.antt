-- ===== src/Kernel/Snapshot.antt =====
-- internal/kernel/repository_task.go: the snapshot of the skills that a task was created with. `hash`
-- stands for SHA-256 in hexadecimal digits; the JSON list of the IDs is the list.
use auto_ze_agent.Common.{
  List, Option, Text, [], any, if◌then◌else◌, is_blank, is_nil, none, not, some, text_eq,
  trim_space, ◌&&◌, ◌∷◌,
}
use auto_ze_agent.Kernel.Base.{Time, invalid_aggregate, Result, ok, err, normalized_time}

pub record TaskSkillSnapshot : Type 0 where
  pub task_id : Text
  pub skill_ids : List Text
  pub instructions : Text
  pub content_hash : Text
  pub created_at : Time

-- The loop: the trimmed IDs, or `none` for a blank one or one that is there twice. `seen` are those
-- so far.
unfoldable pub snapshot_ids : List Text → List Text → Option (List Text)
snapshot_ids seen [] = some []
snapshot_ids seen (raw ∷ ids) =
    let rest = snapshot_ids (trim_space raw ∷ seen) ids in
    if is_nil (trim_space raw)
    then none
    else if any (text_eq (trim_space raw)) seen
    then none
    else put_first (trim_space raw) rest
  where
    put_first : Text → Option (List Text) → Option (List Text)
    put_first id none = none
    put_first id (some ids) = some (id ∷ ids)

unfoldable pub snapshot_of :
    (Text → Text) → Time → Text → Text → Time → Option (List Text) → Result TaskSkillSnapshot
snapshot_of hash clock task_id instructions now none = err invalid_aggregate
snapshot_of hash clock task_id instructions now (some ids) =
    if is_nil ids && not (is_nil instructions)
    then err invalid_aggregate
    else if not (is_nil ids) && is_blank instructions
    then err invalid_aggregate
    else ok (record {
      task_id = task_id;
      skill_ids = ids;
      instructions = instructions;
      content_hash = hash instructions;
      created_at = normalized_time clock now;
    })

unfoldable pub new_task_skill_snapshot :
    (Text → Text) → Time → Text → List Text → Text → Time → Result TaskSkillSnapshot
new_task_skill_snapshot hash clock task_id skill_ids instructions now =
    snapshot_of hash clock task_id instructions now (snapshot_ids [] skill_ids)

-- The checks of `scanTaskSkillSnapshot` on a stored row; the creation time is that stored.
unfoldable pub checked_snapshot :
    (Text → Text) → TaskSkillSnapshot → Result TaskSkillSnapshot → Option TaskSkillSnapshot
checked_snapshot hash row (err e) = none
checked_snapshot hash row (ok v) =
    if text_eq v.content_hash row.content_hash
    then some (record row { skill_ids = v.skill_ids })
    else none

unfoldable pub scan_task_skill_snapshot :
    (Text → Text) → Time → TaskSkillSnapshot → Option TaskSkillSnapshot
scan_task_skill_snapshot hash clock row =
    checked_snapshot hash row
      (new_task_skill_snapshot hash clock row.task_id row.skill_ids row.instructions 0)
