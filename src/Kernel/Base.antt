-- ===== src/Kernel/Base.antt =====
-- internal/kernel/model.go: the error values and the time helper that all aggregates share.
use auto_ze_agent.Common.{Text, if◌then◌else◌, ℕ, ◌==◌}

-- Nanoseconds since Go's zero time, so that `0` is the zero `time.Time`. `UTC()` keeps the instant.
abbrev pub Time : Type 0
Time = ℕ

pub record TransitionError : Type 0 where
  pub aggregate : Text
  pub from : Text
  pub to : Text

-- The sentinel errors. What `fmt.Errorf` adds to the text of one is left out.
pub data Error : Type 0 where
  invalid_aggregate : Error
  invalid_transition : TransitionError → Error
  version_conflict : Error
  not_found : Error

pub data Result {ℓ} (A : Type ℓ) : Type ℓ where
  ok : A → Result A
  err : Error → Result A

-- `clock` is what `time.Now()` reads.
unfoldable pub normalized_time : Time → Time → Time
normalized_time clock value = if value == 0 then clock else value
