-- ===== src/Signaling/Session/Ptz.antt =====
-- The PTZ commands of internal/signaling/session.go: their validation and their payload, up to
-- `json.Marshal`, and the enumeration of pkg/dependencymodels/signaling/ptz_command_method.go.
use Prim.Native.String.{String}
use text.Mathlib.Text.{◌==◌ as str_eq}
use text.Mathlib.TextEquality.{eq_iff}
use go_ring.Common.{
  ℕ, ◌<◌, ◌≡◌, refl, inl, inr, Bool, true, false, not, ◌||◌, Option, none, some, Bytes, ltb,
  if◌then◌else◌, arith, Bool-cases, Option-cases,
}
use go_ring.Common.Int.{ℤ}
use go_ring.Common.Fallible.{Result, ok, ◌>>=◌, ◌>>◌, guard, or_fail}
use go_ring.Signaling.Session.{SessionError, bad_request}

pub data PtzCommandMethod : Type 0 where
  pan_step pan_continuous tilt_step tilt_continuous : PtzCommandMethod

-- `PtzCommandMethodValues`
abbrev pub ptz_command_method_value : PtzCommandMethod → String
ptz_command_method_value pan_step = "PTZ.Pan.Step"
ptz_command_method_value pan_continuous = "PTZ.Pan.Continuous"
ptz_command_method_value tilt_step = "PTZ.Tilt.Step"
ptz_command_method_value tilt_continuous = "PTZ.Tilt.Continuous"

-- `ValuesToPtzCommandMethod`
unfoldable pub ptz_command_method_of : String → Option PtzCommandMethod
ptz_command_method_of m =
    if str_eq m "PTZ.Pan.Step"
    then some pan_step
    else if str_eq m "PTZ.Pan.Continuous"
    then some pan_continuous
    else if str_eq m "PTZ.Tilt.Step"
    then some tilt_step
    else if str_eq m "PTZ.Tilt.Continuous"
    then some tilt_continuous
    else none

abbrev pub is_continuous : PtzCommandMethod → Bool
is_continuous pan_continuous = true
is_continuous tilt_continuous = true
is_continuous _ = false

-- `ValuesToAnonymousSchema_199`: the continuous methods.
unfoldable pub continuous_method_of : String → Option PtzCommandMethod
continuous_method_of m =
    if str_eq m "PTZ.Pan.Continuous"
    then some pan_continuous
    else if str_eq m "PTZ.Tilt.Continuous"
    then some tilt_continuous
    else none

-- What is encoded. `F` is float64; a step command has no speed in it.
pub record PtzPayload (F : Type 0) : Type 0 where
  pub doorbot_id : ℤ
  pub session_id : String
  pub rpc_id : Bytes
  pub method : PtzCommandMethod
  pub control_session_id : Bytes
  pub timestamp : ℕ
  pub direction : ℕ
  pub speed : Option F

abbrev agree {ℓ} : {F : Type ℓ} → Bool → Option F → Bool
agree true (some x) = true
agree true none = false
agree false (some x) = false
agree false none = true

abbrev pub is_some {ℓ} : {A : Type ℓ} → Option A → Bool
is_some none = false
is_some (some x) = true

module _ {F : Type 0} where
  -- `direction` is the number of a PtzDirection; it has a value if it is below 4. The results are
  -- `commandMethod`, `continuousMethod` with its `exists`, and `continuous`.
  unfoldable pub validate_ptz_command :
      String
      → ℕ
      → Option F
      → Result SessionError (PtzCommandMethod × Option PtzCommandMethod × Bool)
  unfolding ptz_command_method_of continuous_method_of
  validate_ptz_command method direction speed = do
    command ←
        or_fail (ptz_command_method_of method)
          (bad_request "invalid PTZ command method or direction")
    guard (ltb direction 4) (bad_request "invalid PTZ command method or direction")
    guard (agree (is_continuous command) speed)
        (bad_request "PTZ speed must be supplied only for continuous commands")
    guard (not (is_continuous command) || is_some (continuous_method_of method))
        (bad_request "invalid continuous PTZ command method")
    ok (command, continuous_method_of method, is_continuous command)

  -- `marshalPTZPayload`, up to the encoding; the zero value of the continuous methods is the first.
  unfoldable pub ptz_payload :
      PtzCommandMethod
      → Option PtzCommandMethod
      → Bool
      → ℕ
      → Option F
      → ℤ
      → String
      → Bytes
      → Bytes
      → ℕ
      → PtzPayload F
  ptz_payload command wire continuous direction speed device signal control id timestamp = record {
    doorbot_id = device;
    session_id = signal;
    rpc_id = id;
    method = if continuous then elim wire [ none ↦ pan_continuous | some m ↦ m ] else command;
    control_session_id = control;
    timestamp = timestamp;
    direction = direction;
    speed = if continuous then speed else none;
  }

method_of_value :
    (m : String) (c : PtzCommandMethod)
    → ptz_command_method_of m ≡ some c
    → m ≡ ptz_command_method_value c
unfolding ptz_command_method_of
method_of_value m c e = ground (
  arith,
  eq_iff m "PTZ.Pan.Step",
  eq_iff m "PTZ.Pan.Continuous",
  eq_iff m "PTZ.Tilt.Step",
  eq_iff m "PTZ.Tilt.Continuous",
)

continuous_of_value :
    (m : String) (c : PtzCommandMethod)
    → ptz_command_method_of m ≡ some c
    → is_continuous c ≡ true
    → continuous_method_of m ≡ some c
unfolding ptz_command_method_of continuous_method_of
continuous_of_value m c e k = ground arith

module _ {F : Type 0} where
  validate_lem :
      (method : String) (direction : ℕ) (speed : Option F) (command : PtzCommandMethod)
      (wire : Option PtzCommandMethod) (continuous : Bool)
      → validate_ptz_command method direction speed ≡ ok (command, wire, continuous)
      → (ptz_command_method_of method ≡ some command)
        × (direction < 4)
        × (agree (is_continuous command) speed ≡ true)
        × (wire ≡ continuous_method_of method)
        × (continuous ≡ is_continuous command)
  unfolding validate_ptz_command
  validate_lem method direction speed command wire continuous e =
      elim (Option-cases (ptz_command_method_of method)) [
        | inl unknown ↦ absurd (ground arith)
        | inr (c, known) ↦ ground arith
      ]

  agree_lem : (k : Bool) (speed : Option F) → agree k speed ≡ true → is_some speed ≡ k
  agree_lem true none e = cc
  agree_lem true (some x) e = refl
  agree_lem false none e = refl
  agree_lem false (some x) e = cc

  -- A command that passes the validation is sent as it was asked for: the payload has the method of
  -- that name, the direction that was asked for, which is one of the four, and the identities and the
  -- time that were given; and it has a speed exactly if the method is continuous, which is the speed
  -- that was given.
  pub validate-payload :
      (method : String) (direction : ℕ) (speed : Option F) (command : PtzCommandMethod)
      (wire : Option PtzCommandMethod) (continuous : Bool) (device : ℤ) (signal : String)
      (control id : Bytes) (timestamp : ℕ)
      → validate_ptz_command method direction speed ≡ ok (command, wire, continuous)
      → let p =
          ptz_payload command wire continuous direction speed device signal control id timestamp in
        (ptz_command_method_value p.method ≡ method)
        × (p.direction ≡ direction)
        × (direction < 4)
        × (p.speed ≡ speed)
        × (is_some speed ≡ is_continuous p.method)
        × (p.doorbot_id ≡ device)
        × (p.session_id ≡ signal)
        × (p.control_session_id ≡ control)
        × (p.rpc_id ≡ id)
        × (p.timestamp ≡ timestamp)
  unfolding validate_ptz_command ptz_payload
  validate-payload method direction speed command wire continuous device signal control id timestamp
        e =
      let (known, low, agreed, wired, kind) =
        validate_lem method direction speed command wire continuous e in
      let named = method_of_value method command known in
      let supplied = agree_lem (is_continuous command) speed agreed in
      elim (Bool-cases (is_continuous command)) [
        | inl k ↦ ground (arith, continuous_of_value method command known k)
        | inr k ↦ ground (arith, agree_lem false speed)
      ]
