-- ===== src/Worker/Calls.antt =====
-- The calls that a worker makes of what is not its own: the backend, the controller, the durable
-- backend, the task's function and the handlers. They are parameters: an answer may depend on all
-- calls that were made before it.
use gkit.Prelude.{Bool, false, Option, none, some, List, ◌∷◌}
use gkit.Prelude.Int.{ℤ}
use gkit.Prelude.Map.{String}
use gkit.Worker.Signature.{Arg, Signature}

pub data State : Type 0 where
  pending received started retry success failure : State

pub data Terminal : Type 0 where
  succeeded failed : Terminal

pub data Call : Type 0 where
  set_state : State → Signature → Call
  runs : Signature → Call
  before_task after_task : Signature → Call
  member_terminal : String → ℤ → String → Terminal → List Arg → Call
  callback_terminal : String → Terminal → Call
  publish : Signature → Call
  fail_pending : Signature → Call
  group_completed : String → Call
  -- With whether it answered true.
  trigger_completed : String → Bool → Call
  group_task_status : String → Call
  reports : String → Call

-- The calls so far, the last one first.
abbrev pub Log : Type 0
Log = List Call

-- An answer with an error, which is its text.
pub data Answer (A : Type 0) : Type 0 where
  ok : A → Answer A
  err : String → Answer A

abbrev pub is_true : Answer Bool → Bool
is_true (ok b) = b
is_true (err e) = false

-- What a run of the task's function gives.
pub data Outcome : Type 0 where
  done : List Arg → Outcome
  failed_with : String → Outcome
  -- ErrRetryTaskLater, with its delay in nanoseconds.
  retry_later : ℤ → Outcome

-- The status of one task of a group: whether it is a success, and its results.
pub record Status : Type 0 where
  pub is_success : Bool
  pub results : List Arg

pub record Env : Type 0 where
  pub registered : String → Bool
  -- NewTaskWithSignature.
  pub new_task : Signature → Option String
  pub has_before : Bool
  pub has_after : Bool
  pub on_set_state : Log → State → Signature → Option String
  pub on_call : Log → Signature → Outcome
  pub now : Log → ℤ
  -- Whether the backend compensates a publication, and the identifier of an attempt.
  pub has_attempts : Bool
  pub attempt_id : Log → Answer String
  pub on_publish : Log → Signature → Option String
  pub consume_queue : String
  -- Whether there is a durable backend.
  pub durable : Bool
  pub on_member : Log → String → ℤ → String → Terminal → List Arg → Option String
  pub on_callback : Log → String → Terminal → Option String
  pub on_completed : Log → String → Answer Bool
  pub on_trigger : Log → String → Answer Bool
  pub on_status : Log → String → Answer (List Status)

-- Why Process returns an error.
pub data Failure : Type 0 where
  state_not_set : State → String → Failure
  bad_task : String → Failure
  no_attempt_id not_published : String → Failure
  bad_metadata : Failure
  not_recorded : String → Failure
  group_failed : String → Failure
  stop_task_deletion : Failure
  out_of_fuel : Failure

-- An error result, `none` for nil, with the calls made.
abbrev pub Action : Type 0
Action = Log → Option Failure × Log

abbrev pub map_error : (String → Failure) → Option String → Option Failure
map_error wrap none = none
map_error wrap (some e) = some (wrap e)

abbrev pub return_nil : Action
return_nil log = (none, log)

abbrev pub fail : Failure → Action
fail e log = (some e, log)

-- `if err != nil { return err }`, and then `k`.
abbrev pub and_then : Option Failure × Log → Action → Option Failure × Log
and_then (none, log) k = k log
and_then (some f, log) k = (some f, log)

infixr 5 ◌>>◌
abbrev pub ◌>>◌ : Action → Action → Action
(m >> k) log = and_then (m log) k

-- A call that only leaves its trace.
abbrev pub note : Call → Action
note c log = (none, c ∷ log)

-- A call, with the failure that its error becomes.
abbrev pub ask : Call → (Log → Option String) → (String → Failure) → Action
ask c answer wrap log = (map_error wrap (answer log), c ∷ log)
