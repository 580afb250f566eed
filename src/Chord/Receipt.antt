-- ===== src/Chord/Receipt.antt =====
-- distributed/backend/durable_chord.go: the receipts of a chord's members and the callback's payload
-- that is made of them.
use gkit.Prelude.{
  ℕ, ◌+◌, Bool, true, false, Option, none, some, List, [], ◌∷◌, ◌==◌, if◌then◌else◌, length,
}
use gkit.Prelude.Int.{ℤ, pos_part}
use gkit.Prelude.Map.{String, ◌=?◌}
use gkit.Chord.Delivery.{
  not_found, receipt_conflict, encoding_failed, member_terminal, TerminalOutcome, success, failure,
  Coding, Receipt, Member, Delivery, member_at, set_suppressed, ready,
}
use gkit.Chord.Member.{After, write_member}

-- bytes.Equal.
abbrev pub same_bytes : List ℕ → List ℕ → Bool
same_bytes [] [] = true
same_bytes [] (b ∷ t) = false
same_bytes (a ∷ s) [] = false
same_bytes (a ∷ s) (b ∷ t) = if a == b then same_bytes s t else false

abbrev pub is_failure : TerminalOutcome → Bool
is_failure success = false
is_failure failure = true

-- What the loop over the receipts finds first: a missing receipt, a failure, or neither.
pub data Tally : Type 0 where
  some_missing some_failed all_succeeded : Tally

module _ (c : Coding) where
  -- The arguments that the callback takes from the members' results, in the order of the members.
  unfoldable pub add_results : List c.TaskResult → c.Signature → c.Signature
  add_results [] s = s
  add_results (r ∷ rs) s = add_results rs (c.add_arg r s)

  unfoldable pub add_members : List (Member c) → c.Signature → c.Signature
  unfolding add_results
  add_members [] s = s
  add_members (m ∷ ms) s = elim m.receipt [
    | none ↦ add_members ms s
    | some r ↦ add_members ms (add_results r.results s)
  ]

  -- buildChordCallbackPayload.
  unfoldable pub build_payload : Delivery c → Option (List ℕ)
  unfolding add_members
  build_payload d = elim (c.unmarshal_signature d.callback_template) [
    | none ↦ none
    | some s ↦ c.marshal_signature (add_members d.members s)
  ]

  unfoldable pub tally : List (Member c) → Tally
  tally [] = all_succeeded
  tally (m ∷ ms) = elim m.receipt [
    | none ↦ some_missing
    | some r ↦ if is_failure r.outcome then some_failed else tally ms
  ]

  -- The end of ApplyChordMemberTerminal, after a success.
  unfoldable pub complete : Tally → ℕ → ℕ → Delivery c → After c
  unfolding build_payload set_suppressed
  complete some_missing clock now d = record { state = d; error = none }
  complete some_failed clock now d = record { state = set_suppressed c clock now d; error = none }
  complete all_succeeded clock now d = elim (build_payload d) [
    | none ↦ record { state = d; error = some encoding_failed }
    | some payload ↦ record {
      state = record d {
        callback_payload = if length d.callback_payload == 0 then payload else d.callback_payload;
        callback_state = ready;
        callback_version = d.callback_version + 1;
      };
      error = none;
    }
  ]

  -- The record with the first receipt of a member.
  unfoldable pub receive : ℕ → ℕ → Receipt c → Member c → Delivery c → Delivery c
  receive now i r m d =
      let m' : Member c = record m {
        state = member_terminal;
        lease_owner = "";
        lease_expires_at = 0;
        receipt = some r;
        version = m.version + 1;
      } in
      write_member c i m' (record d { version = d.version + 1; updated_at = now })

  unfoldable pub first_receipt : ℕ → ℕ → ℕ → Receipt c → Member c → Delivery c → After c
  unfolding complete tally receive
  first_receipt clock now i r m d =
      let d' = receive now i r m d in
      if is_failure r.outcome
      then record { state = set_suppressed c clock now d'; error = none }
      else complete (tally d'.members) clock now d'

  -- ApplyChordMemberTerminal, from the check of the task on.
  unfoldable pub terminal_at :
      ℕ → ℕ → ℕ → TerminalOutcome → List c.TaskResult → Member c → Delivery c → After c
  unfolding first_receipt
  terminal_at clock now i outcome results m d = elim m.receipt [
    | none ↦
        first_receipt clock now i
          (record { task_id = m.task_id; outcome = outcome; results = results }) m d
    | some r ↦ record {
      state = d;
      error =
          if same_bytes (c.marshal_receipt r.task_id r.outcome r.results)
            (c.marshal_receipt m.task_id outcome results)
          then none
          else some receipt_conflict;
    }
  ]

  -- ApplyChordMemberTerminal.
  unfoldable pub apply_member_terminal :
      ℕ → ℕ → ℤ → String → TerminalOutcome → List c.TaskResult → Delivery c → After c
  unfolding terminal_at
  apply_member_terminal clock now ordinal task_id outcome results d =
      elim (member_at c ordinal d.members) [
        | none ↦ record { state = d; error = some not_found }
        | some m ↦
            if m.task_id =? task_id
            then elim (c.clone_results results) [
              | none ↦ record { state = d; error = some encoding_failed }
              | some copy ↦ terminal_at clock now (pos_part ordinal) outcome copy m d
            ]
            else record { state = d; error = some receipt_conflict }
      ]
