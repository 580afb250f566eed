-- ===== src/Chord/Safety.antt =====
-- Every committed transition keeps the invariant; what that means for the callback.
use gkit.Prelude.{ℕ, ◌≡◌, refl, true, false, List, arith, Bool-cases, inl, inr, ltb}
use gkit.Prelude.Map.{String}
use gkit.Chord.Delivery.{
  CallbackState, waiting, ready, leased, published, publish_unknown, delivered, suppressed,
  TerminalOutcome, Coding, Member, Delivery, Registration, set_terminal_time, new_delivery,
  outcome_succeeded, outcome_unknown, outcome_rejected, or_now, PublishOutcomeKind,
}
use gkit.Chord.Member.{PublishOutcome}
use gkit.Chord.Callback.{
  CallbackClaim, CallbackLease, callback_claimable, claim_callback, lease_callback,
  publish_callback, publish_callback_as, release_callback, deliver, terminal_from,
  apply_callback_terminal, is_leased, holds_callback,
}
use gkit.Chord.Valid.{is_open, is_suppressed, receipts, all_in, IsValidAt, IsValid}
use gkit.Chord.Steps.{
  Step, prepares, claims, publishes, reports, claims_callback, publishes_callback, ends_callback,
  Reach, here, next,
}
use gkit.Chord.Keeping.{new_delivery-IsValid, prepare_members-IsValid, claim_member-IsValid}
use gkit.Chord.Reporting.{publish_member-IsValid, apply_member_terminal-IsValid}

callback_claimable_open :
    (s : CallbackState) (expires confirmation now : ℕ)
    → callback_claimable s expires confirmation now ≡ true
    → is_open s ≡ true
unfolding callback_claimable
callback_claimable_open waiting expires confirmation now h = absurd (ground (arith, h))
callback_claimable_open delivered expires confirmation now h = absurd (ground (arith, h))
callback_claimable_open suppressed expires confirmation now h = absurd (ground (arith, h))
callback_claimable_open ready expires confirmation now h = refl
callback_claimable_open leased expires confirmation now h = refl
callback_claimable_open published expires confirmation now h = refl
callback_claimable_open publish_unknown expires confirmation now h = refl

is_leased_open : (s : CallbackState) → is_leased s ≡ true → is_open s ≡ true
is_leased_open leased h = refl
is_leased_open waiting h = absurd (ground (arith, h))
is_leased_open ready h = absurd (ground (arith, h))
is_leased_open published h = absurd (ground (arith, h))
is_leased_open publish_unknown h = absurd (ground (arith, h))
is_leased_open delivered h = absurd (ground (arith, h))
is_leased_open suppressed h = absurd (ground (arith, h))

module _ {c : Coding} where
  -- From one open state to another.
  valid_open :
      (ms : List (Member c)) (s s' : CallbackState)
      → is_open s ≡ true
      → is_open s' ≡ true
      → is_suppressed s' ≡ false
      → IsValidAt ms s
      → IsValidAt ms s'
  valid_open ms s s' h k l v =
      let all : all_in (receipts ms) ≡ true = ground (arith, v.backed, h) in
      record { sealed = v.sealed; backed = rw (k, all) refl; failed = rw l refl }

  claim_callback-IsValid :
      (clock : ℕ) (claim : CallbackClaim) (d : Delivery c)
      → IsValid d
      → IsValid (claim_callback c clock claim d).state
  unfolding claim_callback lease_callback
  claim_callback-IsValid clock claim d v =
      let now = or_now clock claim.now in
      let s = d.callback_state in
      elim (Bool-cases
        (callback_claimable s d.callback_lease_expires_at d.callback_confirmation_at now)) [
          | inl free ↦
              let h =
                callback_claimable_open s d.callback_lease_expires_at d.callback_confirmation_at now
                  free in
              elim (Bool-cases (ltb now d.callback_next_attempt_at)) [
                | inl early ↦
                    rw (claim_callback, free, early) (valid_open d.members s ready h refl refl v)
                | inr due ↦
                    rw (claim_callback, free, due) (valid_open d.members s leased h refl refl v)
              ]
          | inr held ↦ rw (claim_callback, held) v
        ]

  publish_callback_as-IsValid :
      (kind : PublishOutcomeKind) (now : ℕ) (outcome : PublishOutcome) (d : Delivery c)
      → is_open d.callback_state ≡ true
      → IsValid d
      → IsValid (publish_callback_as c kind now outcome d)
  unfolding publish_callback_as release_callback
  publish_callback_as-IsValid outcome_succeeded now outcome d h v =
      valid_open d.members d.callback_state published h refl refl v
  publish_callback_as-IsValid outcome_unknown now outcome d h v =
      valid_open d.members d.callback_state publish_unknown h refl refl v
  publish_callback_as-IsValid outcome_rejected now outcome d h v =
      valid_open d.members d.callback_state ready h refl refl v

  publish_callback-IsValid :
      (clock : ℕ) (lease : CallbackLease) (outcome : PublishOutcome) (d : Delivery c)
      → IsValid d
      → IsValid (publish_callback c clock lease outcome d).state
  unfolding publish_callback
  publish_callback-IsValid clock lease outcome d v = elim (Bool-cases (holds_callback c lease d)) [
    | inl held ↦
        let h = is_leased_open d.callback_state (ground (arith, held)) in
        rw (publish_callback, held)
          (publish_callback_as-IsValid outcome.kind (or_now clock outcome.now) outcome d h v)
    | inr lost ↦ rw (publish_callback, lost) v
  ]

  terminal_from-IsValid :
      (s : CallbackState) (clock now : ℕ) (outcome : TerminalOutcome) (d : Delivery c)
      → IsValid d
      → IsValid (terminal_from c s clock now outcome d).state
  unfolding terminal_from deliver set_terminal_time
  terminal_from-IsValid delivered clock now outcome d v = v
  terminal_from-IsValid suppressed clock now outcome d v = v
  terminal_from-IsValid waiting clock now outcome d v = record {
    sealed = v.sealed;
    backed = refl;
    failed = refl;
  }
  terminal_from-IsValid ready clock now outcome d v = record {
    sealed = v.sealed;
    backed = refl;
    failed = refl;
  }
  terminal_from-IsValid leased clock now outcome d v = record {
    sealed = v.sealed;
    backed = refl;
    failed = refl;
  }
  terminal_from-IsValid published clock now outcome d v = record {
    sealed = v.sealed;
    backed = refl;
    failed = refl;
  }
  terminal_from-IsValid publish_unknown clock now outcome d v = record {
    sealed = v.sealed;
    backed = refl;
    failed = refl;
  }

  pub Step-IsValid : {d e : Delivery c} → Step d e → IsValid d → IsValid e
  unfolding apply_callback_terminal
  Step-IsValid (prepares now d) v = prepare_members-IsValid now d v
  Step-IsValid (claims clock claim lease d h) v = claim_member-IsValid clock claim d v
  Step-IsValid (publishes clock lease outcome d h) v =
      publish_member-IsValid clock lease outcome d v
  Step-IsValid (reports clock now ordinal task_id outcome results d h) v =
      apply_member_terminal-IsValid clock now ordinal task_id outcome results d v
  Step-IsValid (claims_callback clock claim lease d h) v = claim_callback-IsValid clock claim d v
  Step-IsValid (publishes_callback clock lease outcome d h) v =
      publish_callback-IsValid clock lease outcome d v
  Step-IsValid (ends_callback clock now outcome d h) v =
      terminal_from-IsValid d.callback_state clock now outcome d v

  pub Reach-IsValid : {d e : Delivery c} → Reach d e → IsValid d → IsValid e
  Reach-IsValid here v = v
  Reach-IsValid (next r s) v = Step-IsValid s (Reach-IsValid r v)

  -- Whatever transitions a new delivery has gone through, its members are at their end exactly if
  -- they have a receipt, the callback is ready, leased or published only if every member has
  -- reported success, and it is suppressed only if a member has failed.
  pub reachable-IsValid :
      (reg : Registration) (owner : String) (now : ℕ) (d : Delivery c)
      → Reach (new_delivery c reg owner now) d
      → IsValid d
  reachable-IsValid reg owner now d r = Reach-IsValid r (new_delivery-IsValid reg owner now)
