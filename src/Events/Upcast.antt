-- ===== src/Events/Upcast.antt =====
-- internal/events/upcast.go: the registry of upcasters. The methods run under one lock, so each is a
-- function of the registry. An upcaster and `json.Valid` are parameters: functions of payloads.
use auto_ze_agent.Common.{
  Bool, Option, Text, eq_ℤ, if◌then◌else◌, is_nil, is_some, leb_ℤ, ltb_ℤ, none, not, pos, pos_part,
  some, suc, text_eq, zero, ℕ, ℤ, ◌&&◌, ◌-◌, ◌||◌,
}
use auto_ze_agent.Events.Store.{Event}

-- `none` is an error.
abbrev pub Upcaster : Type 0
Upcaster = Text → Option Text

pub record Registry : Type 0 where
  pub current : Text → Option ℤ
  pub upcaster : Text → ℤ → Option Upcaster

pub data UpcastError : Type 0 where
  invalid_schema_version duplicate_upcaster missing_upcaster future_schema : UpcastError
  upcaster_failed invalid_payload : UpcastError

pub data Upcasted {ℓ} (A : Type ℓ) : Type ℓ where
  done : A → Upcasted A
  failed : UpcastError → Upcasted A

unfoldable pub new_registry : Registry
new_registry = record { current = λ t. none; upcaster = λ t v. none }

abbrev pub current_or_zero : Option ℤ → ℤ
current_or_zero none = pos 0
current_or_zero (some v) = v

unfoldable pub set_current_version : Text → ℤ → Registry → Registry × Option UpcastError
set_current_version event_type version r =
    if is_nil event_type || leb_ℤ version (pos 0)
    then (r, some invalid_schema_version)
    else if ltb_ℤ version (current_or_zero (r.current event_type))
    then (r, some invalid_schema_version)
    else (
      record r { current = λ t. if text_eq t event_type then some version else r.current t },
      none,
    )

abbrev pub is_key : Text → ℤ → Text → ℤ → Bool
is_key event_type from t v = text_eq t event_type && eq_ℤ v from

-- A nil upcaster is `none`.
unfoldable pub register : Text → ℤ → Option Upcaster → Registry → Registry × Option UpcastError
register event_type from upcaster r =
    if is_nil event_type || (leb_ℤ from (pos 0) || not (is_some upcaster))
    then (r, some invalid_schema_version)
    else if is_some (r.upcaster event_type from)
    then (r, some duplicate_upcaster)
    else (
      record r {
        upcaster = λ t v. if is_key event_type from t v then upcaster else r.upcaster t v;
      },
      none,
    )

module _ (valid : Text → Bool) where
  unfoldable pub checked : Option Text → Upcasted Text
  checked none = failed upcaster_failed
  checked (some payload) = if valid payload then done payload else failed invalid_payload

  -- One round of the loop.
  unfoldable pub upcast_once : Option Upcaster → Text → Upcasted Text
  upcast_once none payload = failed missing_upcaster
  upcast_once (some f) payload = checked (f payload)

  -- The loop from `version`, for as many rounds as the target is away.
  unfoldable pub upcast_loop : (ℤ → Option Upcaster) → ℕ → ℕ → Text → Upcasted Text
  upcast_loop upcasters zero version payload = done payload
  upcast_loop upcasters (suc rounds) version payload =
      elim (upcast_once (upcasters (pos version)) payload) [
        | done next ↦ upcast_loop upcasters rounds (suc version) next
        | failed e ↦ failed e
      ]

  unfoldable pub with_upcast : Event → ℤ → Upcasted Text → Upcasted Event
  with_upcast e target (done payload) =
      done (record e { payload = payload; schema_version = target })
  with_upcast e target (failed error) = failed error

  -- With the event's type configured at `target`, a version that is positive and not above it.
  unfoldable pub upcast_to : Registry → Event → ℤ → Upcasted Event
  upcast_to r e target =
      let rounds = pos_part target - pos_part e.schema_version in
      let run = upcast_loop (r.upcaster e.kind) rounds (pos_part e.schema_version) e.payload in
      if leb_ℤ e.schema_version (pos 0)
      then failed invalid_schema_version
      else if ltb_ℤ target e.schema_version
      then failed future_schema
      else with_upcast e target run

  upcast_configured : Registry → Event → Option ℤ → Upcasted Event
  upcast_configured r e none = done e
  upcast_configured r e (some target) = upcast_to r e target

  unfoldable pub upcast : Registry → Event → Upcasted Event
  unfolding upcast_configured
  upcast r e = upcast_configured r e (r.current e.kind)
