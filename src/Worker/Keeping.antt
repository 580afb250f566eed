-- ===== src/Worker/Keeping.antt =====
-- What every action of the worker keeps of the calls that have been made.
use gkit.Prelude.{
  ℕ, [], sym, subst, ◌∙◌, ◌≡◌, refl, Bool, true, false, Bool-cases, inl, inr, Option, none, some,
  List, ◌∷◌, if◌then◌else◌,
}
use gkit.Prelude.Int.{ℤ, pos, ltb_ℤ}
use gkit.Prelude.Map.{String, Map, lookup, ◌=?◌}
use gkit.Worker.Signature.{
  MetaValue, bool, string, int, float, number, unknown, Arg, Fields, text, with_fields, append_args,
  prepend_arg, Signature, Signatures, nil, cons, Chord, no_chord, chord, fields, on_success,
  on_error, callback_chord,
}
use gkit.Worker.Calls.{
  State, pending, retry, success, failure, Terminal, succeeded, failed, Call, set_state,
  member_terminal, callback_terminal, publish, fail_pending, group_completed, reports, Log, Answer,
  ok, err, Outcome, done, failed_with, retry_later, Env, Failure, Action, bad_metadata,
  stop_task_deletion, and_then, return_nil, fail, ◌>>◌, note,
}
use gkit.Worker.Send.{
  published, attempted, bind_default_router, compensate, publish_or_fail, set_pending, send_task,
}
use gkit.Worker.Durable.{
  is_member, ordinal_of, record_delivery, record_member, record_callback, record_key, record_meta,
  record_durable_terminal,
}
use gkit.Worker.Callbacks.{
  report_error, with_completed, send_chord, call_success, call_error, send_all, trigger_chord,
  finish_group,
}
use gkit.Worker.Process.{
  set_task_state, send_retry, stop_or_end, handler_succeeded, handler_failed, handler_retry_in,
  handler_retry, conclude,
}
use gkit.Worker.Permitted.{
  ordinary, id_of, id_of-with_fields, id_of-append_args, id_of-prepend_arg, id_of-bind, All,
  Permitted,
}

abbrev pub Keeps : (Log → Type 0) → Action → Type 0
Keeps I m = (log : Log) → I log → I (m log).1

module _ (I : Log → Type 0) where
  and_then-keeps : (r : Option Failure × Log) (k : Action) → I r.1 → Keeps I k → I (and_then r k).1
  and_then-keeps (none, log) k h hk = hk log h
  and_then-keeps (some f, log) k h hk = h

  pub chain-Keeps : (m k : Action) → Keeps I m → Keeps I k → Keeps I (m >> k)
  chain-Keeps m k hm hk log h = and_then-keeps (m log) k (hm log h) hk

  pub if-Keeps : (b : Bool) (m k : Action) → Keeps I m → Keeps I k → Keeps I (if b then m else k)
  if-Keeps true m k hm hk = hm
  if-Keeps false m k hm hk = hk

  pub if-kept : (b : Bool) (r t : Option Failure × Log) → I r.1 → I t.1 → I (if b then r else t).1
  if-kept true r t hr ht = hr
  if-kept false r t hr ht = ht

  module _ (env : Env) (Ok : String → Type 0)
      (closed : (c : Call) (log : Log) → ordinary c ≡ true → I log → I (c ∷ log))
      (publishes : (u : Signature) (log : Log) → Ok (id_of u) → I log → I (publish u ∷ log)) where
    published-Keeps : (e : Option String) (s : Signature) → Keeps I (published env e s)
    unfolding published compensate
    published-Keeps none s log h = h
    published-Keeps (some e) s log h = elim (Bool-cases env.has_attempts) [
      | inl with_ ↦ rw with_ (closed (fail_pending s) log refl h)
      | inr without ↦ rw without h
    ]

    publish_or_fail-Keeps : (s : Signature) → Ok (id_of s) → Keeps I (publish_or_fail env s)
    unfolding publish_or_fail
    publish_or_fail-Keeps s o log h =
        published-Keeps (env.on_publish log s) s (publish s ∷ log) (publishes s log o h)

    attempted-Keeps :
        (a : Answer String) (send : Action) → Keeps I send → Keeps I (attempted env a send)
    unfolding attempted
    attempted-Keeps (ok id) send hs log h = hs log h
    attempted-Keeps (err e) send hs log h = h

    pub send_task-Keeps : (s : Signature) → Ok (id_of s) → Keeps I (send_task env s)
    unfolding send_task set_pending
    send_task-Keeps s o log h =
        let send = set_pending env s >> publish_or_fail env (bind_default_router env s) in
        let kept =
          chain-Keeps (set_pending env s) (publish_or_fail env (bind_default_router env s))
            (λ l i. closed (set_state pending s) l refl i)
            (publish_or_fail-Keeps (bind_default_router env s)
              (subst Ok (sym (id_of-bind env s)) o)) in
        if-kept env.has_attempts (attempted env (env.attempt_id log) send log) (send log)
          (attempted-Keeps (env.attempt_id log) send kept log h) (kept log h)

    pub send_chord-Keeps :
        (c : Signature) (args : Option (List Arg)) → Ok (id_of c) → Keeps I (send_chord env c args)
    unfolding send_chord
    send_chord-Keeps c none o log h = h
    send_chord-Keeps c (some args) o log h =
        send_task-Keeps (append_args args c) (subst Ok (sym (id_of-append_args args c)) o) log h

    report_error-keeps :
        (id : String) (r : Option Failure × Log) → I r.1 → I (report_error env id r)
    report_error-keeps id (none, log) h = h
    report_error-keeps id (some f, log) h = closed (reports id) log refl h

    pub send_all-keeps :
        (change : Signature → Signature) (cs : Signatures) (log : Log)
        → ((c : Signature) → id_of (change c) ≡ id_of c)
        → All Ok cs
        → I log
        → I (send_all env change cs log)
    unfolding send_all All
    send_all-keeps change nil log same o h = h
    send_all-keeps change (cons c cs) log same o h = send_all-keeps change cs _ same o.1 (
        report_error-keeps (fields c).id _
          (send_task-Keeps (change c) (subst Ok (sym (same c)) o.0) log h))

    pub set_task_state-Keeps : (st : State) (s : Signature) → Keeps I (set_task_state env st s)
    unfolding set_task_state
    set_task_state-Keeps st s log h = closed (set_state st s) log refl h

    record_member-Keeps :
        (key : String) (n : Option ℤ) (id : String) (o : Terminal) (rs : List Arg)
        → Keeps I (record_member env key n id o rs)
    unfolding record_member
    record_member-Keeps key none id o rs log h = h
    record_member-Keeps key (some n) id o rs log h =
        closed (member_terminal key n id o rs) log refl h

    record_key-Keeps :
        (v : MetaValue) (m : Map MetaValue) (id : String) (o : Terminal) (rs : List Arg)
        → Keeps I (record_key env v m id o rs)
    unfolding record_key record_callback
    record_key-Keeps (string key) m id o rs =
        let member =
          record_member env key (ordinal_of env (lookup "gkit.chord_member_ordinal" m)) id o rs in
        if-Keeps (key =? "") (fail bad_metadata) _ (λ log h. h)
          (if-Keeps (is_member env (lookup "gkit.chord_member" m)) member
            (record_callback env key o) (record_member-Keeps key _ id o rs)
            (λ log h. closed (callback_terminal key o) log refl h))
    record_key-Keeps (bool b) m id o rs = λ log h. h
    record_key-Keeps (int n) m id o rs = λ log h. h
    record_key-Keeps (float n b) m id o rs = λ log h. h
    record_key-Keeps (number n) m id o rs = λ log h. h
    record_key-Keeps unknown m id o rs = λ log h. h

    record_delivery-Keeps :
        (v : Option MetaValue) (m : Map MetaValue) (id : String) (o : Terminal) (rs : List Arg)
        → Keeps I (record_delivery env v m id o rs)
    unfolding record_delivery
    record_delivery-Keeps none m id o rs log h = h
    record_delivery-Keeps (some v) m id o rs log h = record_key-Keeps v m id o rs log h

    record_meta-Keeps :
        (m : Option (Map MetaValue)) (id : String) (o : Terminal) (rs : List Arg)
        → Keeps I (record_meta env m id o rs)
    unfolding record_meta
    record_meta-Keeps none id o rs log h = h
    record_meta-Keeps (some m) id o rs log h =
        record_delivery-Keeps (lookup "gkit.chord_delivery_key" m) m id o rs log h

    record-Keeps :
        (s : Signature) (o : Terminal) (rs : List Arg)
        → Keeps I (record_durable_terminal env s o rs)
    unfolding record_durable_terminal
    record-Keeps s o rs =
        if-Keeps env.durable _ return_nil (record_meta-Keeps (fields s).meta (fields s).id o rs)
          (λ log h. h)

    call_error-Keeps :
        (s : Signature) (e : String) → All Ok (on_error s) → Keeps I (call_error env s e)
    unfolding call_error
    call_error-Keeps s e o log h =
        let arg : Arg = record { kind = "string"; value = text e } in
        send_all-keeps (prepend_arg arg) (on_error s) log (id_of-prepend_arg arg) o h

    stop_or_end-Keeps : (s : Signature) → Keeps I (stop_or_end env s)
    unfolding stop_or_end
    stop_or_end-Keeps s =
        if-Keeps (fields s).stop_task_deletion_on_error (fail stop_task_deletion) return_nil
          (λ log h. h) (λ log h. h)

    pub handler_failed-Keeps :
        (s : Signature) (e : String) → All Ok (on_error s) → Keeps I (handler_failed env s e)
    unfolding handler_failed
    handler_failed-Keeps s e o =
        let told = note (reports (fields s).id) in
        let last = call_error env s e >> stop_or_end env s in
        let recorded = record_durable_terminal env s failed [] in
        chain-Keeps (set_task_state env failure s) (recorded >> told >> last)
          (set_task_state-Keeps failure s)
          (chain-Keeps recorded (told >> last) (record-Keeps s failed []) (
            chain-Keeps told last (λ log h. closed (reports (fields s).id) log refl h)
              (chain-Keeps (call_error env s e) (stop_or_end env s) (call_error-Keeps s e o)
                (stop_or_end-Keeps s))))

    call_success-Keeps :
        (s : Signature) (rs : List Arg) → All Ok (on_success s) → Keeps I (call_success env s rs)
    unfolding call_success
    call_success-Keeps s rs o log h =
        send_all-keeps (append_args rs) (on_success s) log (id_of-append_args rs) o h

    -- The task itself, with some of its fields changed.
    send_changed-Keeps :
        (s : Signature) (g : Fields)
        → Ok (id_of s)
        → g.id ≡ id_of s
        → Keeps I (send_task env (with_fields g s))
    send_changed-Keeps s g o same =
        send_task-Keeps (with_fields g s) (subst Ok (sym (id_of-with_fields g s ∙ same)) o)

    send_retry-Keeps :
        (s : Signature) (d : Option (ℕ × ℕ)) → Ok (id_of s) → Keeps I (send_retry env s d)
    unfolding send_retry
    send_retry-Keeps s none o log h = h
    send_retry-Keeps s (some (n, d)) o log h = send_changed-Keeps s _ o refl log h

    handler_retry-Keeps : (s : Signature) → Ok (id_of s) → Keeps I (handler_retry env s)
    unfolding handler_retry
    handler_retry-Keeps s o =
        chain-Keeps (set_task_state env retry s) _ (set_task_state-Keeps retry s)
          (send_retry-Keeps s _ o)

    handler_retry_in-Keeps :
        (s : Signature) (d : ℤ) → Ok (id_of s) → Keeps I (handler_retry_in env s d)
    unfolding handler_retry_in
    handler_retry_in-Keeps s d o =
        chain-Keeps (set_task_state env retry s) _ (set_task_state-Keeps retry s)
          (λ log h. send_changed-Keeps s _ o refl log h)

    -- What follows a trigger that answered true is left to a client of these lemmas.
    module _ (In : String → Signature → Type 0)
        (grouped : (g : String) (c : Signature) → In g c → Keeps I (trigger_chord env g c)) where
      with_completed-Keeps :
          (g : String) (c : Signature) (a : Answer Bool)
          → In g c
          → Keeps I (with_completed env g c a)
      unfolding with_completed
      with_completed-Keeps g c (err e) i log h = h
      with_completed-Keeps g c (ok false) i log h = h
      with_completed-Keeps g c (ok true) i log h = grouped g c i log h

      finish_group-Keeps :
          (g : String) (c : Chord)
          → ((d : Signature) → c ≡ chord d → In g d)
          → Keeps I (finish_group env g c)
      unfolding finish_group
      finish_group-Keeps g no_chord i log h = h
      finish_group-Keeps g (chord c) i log h =
          if-kept (g =? "") (none, log) _ h
            (with_completed-Keeps g c (env.on_completed log g) (i c refl) (group_completed g ∷ log)
              (closed (group_completed g) log refl h))

      handler_succeeded-Keeps :
          (s : Signature) (rs : List Arg) → Permitted Ok In s → Keeps I (handler_succeeded env s rs)
      unfolding handler_succeeded
      handler_succeeded-Keeps s rs v =
          let finish = finish_group env (fields s).group_id (callback_chord s) in
          let recorded = record_durable_terminal env s succeeded rs in
          let told = call_success env s rs in
          chain-Keeps (set_task_state env success s) (recorded >> told >> finish)
            (set_task_state-Keeps success s)
            (chain-Keeps recorded (told >> finish) (record-Keeps s succeeded rs) (
              chain-Keeps told finish (call_success-Keeps s rs v.successes)
                (finish_group-Keeps (fields s).group_id (callback_chord s) v.of_group)))

      pub conclude-Keeps :
          (s : Signature) (o : Outcome) → Permitted Ok In s → Keeps I (conclude env s o)
      unfolding conclude
      conclude-Keeps s (done rs) v = handler_succeeded-Keeps s rs v
      conclude-Keeps s (retry_later d) v = handler_retry_in-Keeps s d v.itself
      conclude-Keeps s (failed_with e) v =
          if-Keeps (ltb_ℤ (pos 0) (fields s).retry_count) (handler_retry env s)
            (handler_failed env s e) (handler_retry-Keeps s v.itself)
            (handler_failed-Keeps s e v.errors)
