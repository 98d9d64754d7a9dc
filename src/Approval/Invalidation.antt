-- ===== src/Approval/Invalidation.antt =====
-- What a change of a plan does to its approvals (internal/approval/approval.go).
use auto_ze_agent.Common.{
  ℕ, Bool, Bool-cases, List, Text, [], arith, false, inl, inr, is_blank, text_eq, text_eq_iff, true,
  update_rows, ◌&&◌, ◌||◌, ◌∷◌, ◌≡◌, ◌∙◌, ap,
}
use auto_ze_agent.Kernel.Base.{Time, normalized_time}
use auto_ze_agent.Approval.Records.{ApprovalRow, Tables, issued}
use auto_ze_agent.Approval.Decide.{
  counts, invalidate_at, invalidate_for_plan_change, is_approved, superseded,
}

module _ (format : Time → Text) (plan_id : Text) (revision : ℕ) (step_id : Text) (now : Time) where
  invalidate_at-counts :
      (other : Text) (at : Time) (row : ApprovalRow)
      → counts format plan_id revision other step_id now (invalidate_at at row) ≡ false
  unfolding counts
  invalidate_at-counts other at row = ground arith

  superseded-counts :
      (current other : Text) (row : ApprovalRow)
      → text_eq other current ≡ true
      → superseded plan_id current row ≡ true
      → counts format plan_id revision other step_id now row ≡ false
  unfolding counts superseded
  superseded-counts current other row h s =
      ground (arith, text_eq_iff other current, text_eq_iff row.plan_hash other)

  kept-counts :
      (current other : Text) (row : ApprovalRow)
      → text_eq other current ≡ false
      → superseded plan_id current row ≡ false
      → counts format plan_id revision other step_id now row ≡ false
  unfolding counts superseded
  kept-counts current other row h s = ground (arith, text_eq_iff row.plan_hash other)

  update_rows-is_approved :
      (current other : Text) (at : Time) (rows : List ApprovalRow)
      → is_approved format plan_id revision other step_id now
          (update_rows (superseded plan_id current) (invalidate_at at) rows).0
        ≡ (text_eq other current && is_approved format plan_id revision other step_id now rows)
  unfolding is_approved update_rows
  update_rows-is_approved current other at [] = ground arith
  update_rows-is_approved current other at (row ∷ rows) =
      let rest = λ (b : Bool). λ (h : text_eq other current ≡ b).
        update_rows-is_approved current other at rows
        ∙ ap (λ b. b && is_approved format plan_id revision other step_id now rows) h in
      let gone = invalidate_at-counts other at row in
      elim (Bool-cases (superseded plan_id current row)) [
        | inl s ↦ elim (Bool-cases (text_eq other current)) [
          | inl h ↦ rw (s, gone, h, superseded-counts current other row h s) (rest true h)
          | inr h ↦ rw (s, gone, h) (rest false h)
        ]
        | inr s ↦ elim (Bool-cases (text_eq other current)) [
          | inl h ↦
              rw (s, h)
                (ap (λ b. counts format plan_id revision other step_id now row || b) (rest true h))
          | inr h ↦ rw (s, h, kept-counts current other row h s) (rest false h)
        ]
      ]

  -- Once the approvals for other hashes of a plan are invalidated, a step is approved under a hash
  -- just where the hash is the current one and the step was approved under it before.
  pub is_approved-invalidate_for_plan_change :
      (clock at : Time) (current other : Text) (db db' : Tables) (n : ℕ)
      → invalidate_for_plan_change clock plan_id current at db ≡ issued db' n
      → is_approved format plan_id revision other step_id now db'.approvals ≡ (
          text_eq other current
          && is_approved format plan_id revision other step_id now db.approvals)
  unfolding invalidate_for_plan_change
  is_approved-invalidate_for_plan_change clock at current other db db' n h =
      elim (Bool-cases (is_blank plan_id || is_blank current)) [
        | inl e ↦ absurd (ground (arith, e))
        | inr e ↦
            let step =
              update_rows-is_approved current other (normalized_time clock at) db.approvals in
            ground (arith, e, step)
      ]
