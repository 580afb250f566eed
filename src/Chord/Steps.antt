-- ===== src/Chord/Steps.antt =====
-- The committed transitions of a delivery's record. A backend stores what a transition of
-- distributed/backend/durable_chord.go made of the record if that returned no error, and a claim
-- only if it gave a lease (updateChordDelivery of distributed/backend/backend_db/durable_chord.go).
use gkit.Prelude.{ℕ, ◌≡◌, none, some, List}
use gkit.Prelude.Int.{ℤ}
use gkit.Prelude.Map.{String}
use gkit.Chord.Delivery.{Coding, Delivery, TerminalOutcome}
use gkit.Chord.Member.{
  MemberClaim, MemberLease, PublishOutcome, prepare_members, claim_member, publish_member,
}
use gkit.Chord.Receipt.{apply_member_terminal}
use gkit.Chord.Callback.{
  CallbackClaim, CallbackLease, claim_callback, publish_callback, apply_callback_terminal,
}

module _ {c : Coding} where
  pub data Step : Delivery c → Delivery c → Type 1 where
    prepares : (now : ℕ) (d : Delivery c) → Step d (prepare_members c now d)
    claims :
        (clock : ℕ) (claim : MemberClaim) (lease : MemberLease) (d : Delivery c)
        → (claim_member c clock claim d).lease ≡ some lease
        → Step d (claim_member c clock claim d).state
    publishes :
        (clock : ℕ) (lease : MemberLease) (outcome : PublishOutcome) (d : Delivery c)
        → (publish_member c clock lease outcome d).error ≡ none
        → Step d (publish_member c clock lease outcome d).state
    reports :
        (clock now : ℕ) (ordinal : ℤ) (task_id : String) (outcome : TerminalOutcome)
        (results : List c.TaskResult) (d : Delivery c)
        → (apply_member_terminal c clock now ordinal task_id outcome results d).error ≡ none
        → Step d (apply_member_terminal c clock now ordinal task_id outcome results d).state
    claims_callback :
        (clock : ℕ) (claim : CallbackClaim) (lease : CallbackLease) (d : Delivery c)
        → (claim_callback c clock claim d).lease ≡ some lease
        → Step d (claim_callback c clock claim d).state
    publishes_callback :
        (clock : ℕ) (lease : CallbackLease) (outcome : PublishOutcome) (d : Delivery c)
        → (publish_callback c clock lease outcome d).error ≡ none
        → Step d (publish_callback c clock lease outcome d).state
    ends_callback :
        (clock now : ℕ) (outcome : TerminalOutcome) (d : Delivery c)
        → (apply_callback_terminal c clock now outcome d).error ≡ none
        → Step d (apply_callback_terminal c clock now outcome d).state

  pub data Reach (d : Delivery c) : Delivery c → Type 1 where
    here : Reach d d
    next : {e f : Delivery c} → Reach d e → Step e f → Reach d f
