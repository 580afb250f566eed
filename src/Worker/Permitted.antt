-- ===== src/Worker/Permitted.antt =====
-- The publications that a task may make: by their identifiers.
use gkit.Prelude.{◌≡◌, refl, Bool, true, false, Bool-cases, inl, inr, List}
use gkit.Prelude.Map.{String, ◌=?◌}
use gkit.Worker.Signature.{
  Arg, Fields, signature, with_fields, append_args, prepend_arg, Signature, Signatures, nil, cons,
  chord, fields, on_success, on_error, callback_chord,
}
use gkit.Worker.Calls.{
  Call, runs, before_task, after_task, publish, trigger_completed, group_task_status, Env,
}
use gkit.Worker.Send.{bind_default_router}

-- The calls that are neither publications, nor of the task's function and its handlers, nor of the
-- trigger of a group.
abbrev pub ordinary : Call → Bool
ordinary (publish s) = false
ordinary (runs s) = false
ordinary (before_task s) = false
ordinary (after_task s) = false
ordinary (trigger_completed g b) = false
ordinary (group_task_status g) = false
ordinary _ = true

abbrev pub id_of : Signature → String
id_of s = (fields s).id

pub id_of-with_fields : (g : Fields) (s : Signature) → id_of (with_fields g s) ≡ g.id
id_of-with_fields g (signature f ss es c) = refl

pub id_of-append_args : (args : List Arg) (s : Signature) → id_of (append_args args s) ≡ id_of s
id_of-append_args args (signature f ss es c) = refl

pub id_of-prepend_arg : (arg : Arg) (s : Signature) → id_of (prepend_arg arg s) ≡ id_of s
id_of-prepend_arg arg (signature f ss es c) = refl

pub id_of-bind : (env : Env) (u : Signature) → id_of (bind_default_router env u) ≡ id_of u
unfolding bind_default_router
id_of-bind env u = elim (Bool-cases ((fields u).router =? "")) [
  | inl empty ↦ rw empty (id_of-with_fields (record (fields u) { router = env.consume_queue }) u)
  | inr given ↦ rw given refl
]

-- All of some callbacks have an identifier that passes.
unfoldable pub All : (String → Type 0) → Signatures → Type 0
All Ok nil = Unit
All Ok (cons c cs) = Ok (id_of c) × All Ok cs

-- A task whose publications and whose group's callback pass.
pub record Permitted (Ok : String → Type 0) (In : String → Signature → Type 0) (s : Signature)
    : Type 0 where
  pub itself : Ok (id_of s)
  pub successes : All Ok (on_success s)
  pub errors : All Ok (on_error s)
  pub of_group : (c : Signature) → callback_chord s ≡ chord c → In (fields s).group_id c

abbrev pub Free : String → Type 0
Free j = Unit

abbrev pub FreeGroup : String → Signature → Type 0
FreeGroup g c = Unit

pub All-Free : (cs : Signatures) → All Free cs
unfolding All
All-Free nil = tt
All-Free (cons c cs) = (tt, All-Free cs)

pub Free-Permitted : (s : Signature) → Permitted Free FreeGroup s
Free-Permitted s = record {
  itself = tt;
  successes = All-Free (on_success s);
  errors = All-Free (on_error s);
  of_group = λ c e. tt;
}
