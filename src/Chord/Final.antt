-- ===== src/Chord/Final.antt =====
-- The end of a delivery is final: once it is suppressed, or delivered with every receipt there, no
-- transition changes the callback's state or its outcome.
use gkit.Prelude.{
  ℕ, zero, suc, ◌≡◌, refl, ap, subst, ◌∙◌, Bool, true, false, Option, none, some, List, [], ◌∷◌,
  get_elem?, arith, Bool-cases, Option-cases, inl, inr, ◌⊎◌, ltb,
}
use gkit.Prelude.Int.{ℤ, pos_part}
use gkit.Prelude.Map.{String, ◌=?◌}
use mathlib.Core.Option.{some-injective}
use gkit.Chord.Delivery.{
  lease_lost, CallbackState, waiting, ready, leased, published, publish_unknown, delivered,
  suppressed, TerminalOutcome, Coding, Receipt, Member, Delivery, set_suppressed, suppress_from,
  member_at, outcome_succeeded, outcome_unknown, outcome_rejected, or_now, PublishOutcomeKind,
}
use gkit.Chord.Member.{
  MemberClaim, MemberLease, PublishOutcome, member_claimable, prepare_members, claim_at,
  claim_member, publish_as, publish_member, holds_lease,
}
use gkit.Chord.Receipt.{
  is_failure, Tally, some_missing, some_failed, all_succeeded, tally, complete, first_receipt,
  receive, terminal_at, apply_member_terminal,
}
use gkit.Chord.Callback.{
  CallbackClaim, CallbackLease, callback_claimable, claim_callback, publish_callback, terminal_from,
  apply_callback_terminal,
}
use gkit.Chord.Valid.{
  receipts, any_failed, IsValid, receipts-set, get_elem?-receipts, any_failed_kept, all_in-tally,
  all_in_clean,
}
use gkit.Chord.Steps.{
  Step, prepares, claims, publishes, reports, claims_callback, publishes_callback, ends_callback,
  Reach, here, next,
}
use gkit.Chord.Keeping.{member_at-get}
use gkit.Chord.Safety.{Reach-IsValid}
use gkit.Chord.Steps.{
  Step, prepares, claims, publishes, reports, claims_callback, publishes_callback, ends_callback,
  Reach, here, next,
}
use gkit.Chord.Growing.{IsKept, Later}
use gkit.Chord.Fencing.{Step-Later}

module _ {c : Coding} where
  abbrev pub all_there : List (Option (Receipt c)) → Bool
  all_there [] = true
  all_there (none ∷ rs) = false
  all_there (some r ∷ rs) = all_there rs

  -- Suppressed, or delivered with every receipt there.
  abbrev pub IsFinal : Delivery c → Type 0
  IsFinal d =
      (d.callback_state ≡ suppressed)
      ⊎ ((d.callback_state ≡ delivered) × (all_there (receipts d.members) ≡ true))

  all_there-Later :
      (ms ns : List (Member c))
      → Later ms ns
      → all_there (receipts ms) ≡ true
      → all_there (receipts ns) ≡ true
  all_there-Later [] [] h k = refl
  all_there-Later [] (n ∷ ns) h k = absurd h
  all_there-Later (m ∷ ms) [] h k = absurd h
  all_there-Later (m ∷ ms) (n ∷ ns) ((_, kept), h) k = elim (Option-cases m.receipt) [
    | inl missing ↦ absurd (ground (arith, k, missing))
    | inr (r, came) ↦
        let same : n.receipt ≡ some r = subst (λ q. IsKept q n.receipt) came kept in
        let rest : all_there (receipts ms) ≡ true = ground (arith, k, came) in
        rw same (all_there-Later ms ns h rest)
  ]

  all_there_at :
      (rs : List (Option (Receipt c))) (i : ℕ) → get_elem? rs i ≡ some none → all_there rs ≡ false
  all_there_at [] i e = absurd (ground (arith, e))
  all_there_at (none ∷ rs) i e = refl
  all_there_at (some r ∷ rs) zero e = absurd (ground (arith, some-injective (some r) none e))
  all_there_at (some r ∷ rs) (suc i) e = all_there_at rs i e

  -- The callback's state and outcome are those of another delivery.
  abbrev pub IsSameEnd : Delivery c → Delivery c → Type 0
  IsSameEnd d e = (e.callback_state ≡ d.callback_state) × (e.terminal_outcome ≡ d.terminal_outcome)

  suppress_from_final :
      (s : CallbackState) (clock now : ℕ) (d : Delivery c)
      → d.callback_state ≡ s
      → ((s ≡ suppressed) ⊎ (s ≡ delivered))
      → IsSameEnd d (suppress_from c s clock now d)
  unfolding suppress_from
  suppress_from_final delivered clock now d e h = (refl, refl)
  suppress_from_final suppressed clock now d e h = (refl, refl)
  suppress_from_final waiting clock now d e h = absurd (ground (arith, h))
  suppress_from_final ready clock now d e h = absurd (ground (arith, h))
  suppress_from_final leased clock now d e h = absurd (ground (arith, h))
  suppress_from_final published clock now d e h = absurd (ground (arith, h))
  suppress_from_final publish_unknown clock now d e h = absurd (ground (arith, h))

  final_state :
      (d : Delivery c)
      → IsFinal d
      → (d.callback_state ≡ suppressed) ⊎ (d.callback_state ≡ delivered)
  final_state d (inl e) = inl e
  final_state d (inr (e, _)) = inr e

  set_suppressed_final :
      (clock now : ℕ) (d : Delivery c)
      → ((d.callback_state ≡ suppressed) ⊎ (d.callback_state ≡ delivered))
      → IsSameEnd d (set_suppressed c clock now d)
  unfolding set_suppressed
  set_suppressed_final clock now d h = suppress_from_final d.callback_state clock now d refl h

  claim_member_end :
      (clock : ℕ) (claim : MemberClaim) (d : Delivery c)
      → IsSameEnd d (claim_member c clock claim d).state
  unfolding claim_member claim_at
  claim_member_end clock claim d = elim (Option-cases (member_at c claim.ordinal d.members)) [
    | inl out ↦ rw (claim_member, out) (refl, refl)
    | inr (m, e) ↦
        let now = or_now clock claim.now in
        elim (Bool-cases
          (member_claimable m.state m.lease_expires_at m.confirmation_deadline now)) [
            | inl free ↦ elim (Bool-cases (ltb now m.next_attempt_at)) [
              | inl early ↦ rw (claim_member, e, claim_at, free, early) (refl, refl)
              | inr due ↦ rw (claim_member, e, claim_at, free, due) (refl, refl)
            ]
            | inr held ↦ rw (claim_member, e, claim_at, held) (refl, refl)
          ]
  ]

  publish_as_end :
      (kind : PublishOutcomeKind) (clock now i : ℕ) (outcome : PublishOutcome) (m : Member c)
      (d : Delivery c)
      → ((d.callback_state ≡ suppressed) ⊎ (d.callback_state ≡ delivered))
      → IsSameEnd d (publish_as c kind clock now i outcome m d)
  unfolding publish_as
  publish_as_end outcome_succeeded clock now i outcome m d h = (refl, refl)
  publish_as_end outcome_unknown clock now i outcome m d h = (refl, refl)
  publish_as_end outcome_rejected clock now i outcome m d h = set_suppressed_final clock now _ h

  publish_member_end :
      (clock : ℕ) (lease : MemberLease) (outcome : PublishOutcome) (d : Delivery c)
      → ((d.callback_state ≡ suppressed) ⊎ (d.callback_state ≡ delivered))
      → IsSameEnd d (publish_member c clock lease outcome d).state
  unfolding publish_member
  publish_member_end clock lease outcome d h =
      elim (Option-cases (get_elem? d.members lease.ordinal)) [
        | inl out ↦ rw (publish_member, out) (refl, refl)
        | inr (m, e) ↦ elim (Bool-cases (holds_lease c lease m)) [
          | inl held ↦
              rw (publish_member, e, held)
                (publish_as_end outcome.kind clock (or_now clock outcome.now) lease.ordinal outcome
                  m d h)
          | inr lost ↦ rw (publish_member, e, lost) (refl, refl)
        ]
      ]

  complete_end :
      (t : Tally) (clock now : ℕ) (d : Delivery c)
      → tally c d.members ≡ t
      → any_failed (receipts d.members) ≡ true
      → ((d.callback_state ≡ suppressed) ⊎ (d.callback_state ≡ delivered))
      → IsSameEnd d (complete c t clock now d).state
  unfolding complete
  complete_end some_missing clock now d e k h = (refl, refl)
  complete_end some_failed clock now d e k h = set_suppressed_final clock now d h
  complete_end all_succeeded clock now d e k h =
      let clean = all_in_clean (receipts d.members) (all_in-tally d.members e) in
      absurd (ground (arith, clean, k))

  first_receipt_end :
      (clock now i : ℕ) (r : Receipt c) (m : Member c) (d : Delivery c)
      → get_elem? d.members i ≡ some m
      → m.receipt ≡ none
      → IsValid d
      → IsFinal d
      → IsSameEnd d (first_receipt c clock now i r m d).state
  unfolding first_receipt receive
  first_receipt_end clock now i r m d e k v (inr (at_end, all)) =
      let missing =
        all_there_at (receipts d.members) i (get_elem?-receipts d.members i m e ∙ ap some k) in
      absurd (ground (arith, all, missing))
  first_receipt_end clock now i r m d e k v (inl at_end) =
      let had : any_failed (receipts d.members) ≡ true = ground (arith, v.failed, at_end) in
      let at = get_elem?-receipts d.members i m e ∙ ap some k in
      elim (Bool-cases (is_failure r.outcome)) [
        | inl bad ↦
            rw (first_receipt, bad)
              (set_suppressed_final clock now (receive c now i r m d) (inl at_end))
        | inr good ↦
            rw (first_receipt, good)
              (complete_end _ clock now (receive c now i r m d) refl
                (rw (receipts-set d.members i _)
                  (any_failed_kept (receipts d.members) i (some r) at had))
                (inl at_end))
      ]

  apply_member_terminal_end :
      (clock now : ℕ) (ordinal : ℤ) (task_id : String) (outcome : TerminalOutcome)
      (results : List c.TaskResult) (d : Delivery c)
      → IsValid d
      → IsFinal d
      → IsSameEnd d (apply_member_terminal c clock now ordinal task_id outcome results d).state
  unfolding apply_member_terminal terminal_at
  apply_member_terminal_end clock now ordinal task_id outcome results d v f =
      elim (Option-cases (member_at c ordinal d.members)) [
        | inl out ↦ rw (apply_member_terminal, out) (refl, refl)
        | inr (m, e) ↦ elim (Bool-cases (m.task_id =? task_id)) [
          | inl own ↦ elim (Option-cases (c.clone_results results)) [
            | inl uncoded ↦ rw (apply_member_terminal, e, own, uncoded) (refl, refl)
            | inr (copy, coded) ↦ elim (Option-cases m.receipt) [
              | inl none_yet ↦
                  rw (apply_member_terminal, e, own, coded, terminal_at, none_yet)
                    (first_receipt_end clock now (pos_part ordinal) _ m d
                      (member_at-get ordinal d.members m e) none_yet v f)
              | inr (r, came) ↦
                  rw (apply_member_terminal, e, own, coded, terminal_at, came) (refl, refl)
            ]
          ]
          | inr other ↦ rw (apply_member_terminal, e, other) (refl, refl)
        ]
      ]

  claim_callback_end :
      (clock : ℕ) (claim : CallbackClaim) (d : Delivery c)
      → ((d.callback_state ≡ suppressed) ⊎ (d.callback_state ≡ delivered))
      → (claim_callback c clock claim d).lease ≡ none
  unfolding claim_callback callback_claimable
  claim_callback_end clock claim d (inl e) = rw (claim_callback, e) refl
  claim_callback_end clock claim d (inr e) = rw (claim_callback, e) refl

  publish_callback_end :
      (clock : ℕ) (lease : CallbackLease) (outcome : PublishOutcome) (d : Delivery c)
      → ((d.callback_state ≡ suppressed) ⊎ (d.callback_state ≡ delivered))
      → (publish_callback c clock lease outcome d).error ≡ some lease_lost
  unfolding publish_callback
  publish_callback_end clock lease outcome d (inl e) = rw (publish_callback, e) refl
  publish_callback_end clock lease outcome d (inr e) = rw (publish_callback, e) refl

  terminal_from_end :
      (s : CallbackState) (clock now : ℕ) (outcome : TerminalOutcome) (d : Delivery c)
      → ((s ≡ suppressed) ⊎ (s ≡ delivered))
      → IsSameEnd d (terminal_from c s clock now outcome d).state
  unfolding terminal_from
  terminal_from_end delivered clock now outcome d h = (refl, refl)
  terminal_from_end suppressed clock now outcome d h = (refl, refl)
  terminal_from_end waiting clock now outcome d h = absurd (ground (arith, h))
  terminal_from_end ready clock now outcome d h = absurd (ground (arith, h))
  terminal_from_end leased clock now outcome d h = absurd (ground (arith, h))
  terminal_from_end published clock now outcome d h = absurd (ground (arith, h))
  terminal_from_end publish_unknown clock now outcome d h = absurd (ground (arith, h))

  Step_end : {d e : Delivery c} → Step d e → IsValid d → IsFinal d → IsSameEnd d e
  unfolding prepare_members apply_callback_terminal
  Step_end (prepares now d) v f = (refl, refl)
  Step_end (claims clock claim lease d h) v f = claim_member_end clock claim d
  Step_end (publishes clock lease outcome d h) v f =
      publish_member_end clock lease outcome d (final_state d f)
  Step_end (reports clock now ordinal task_id outcome results d h) v f =
      apply_member_terminal_end clock now ordinal task_id outcome results d v f
  Step_end (claims_callback clock claim lease d h) v f =
      absurd (ground (arith, h, claim_callback_end clock claim d (final_state d f)))
  Step_end (publishes_callback clock lease outcome d h) v f =
      absurd (ground (arith, h, publish_callback_end clock lease outcome d (final_state d f)))
  Step_end (ends_callback clock now outcome d h) v f =
      terminal_from_end d.callback_state clock now outcome d (final_state d f)

  Step-IsFinal : {d e : Delivery c} → Step d e → IsValid d → IsFinal d → IsFinal e
  Step-IsFinal {d} {e} s v (inl at_end) = inl ((Step_end s v (inl at_end)).0 ∙ at_end)
  Step-IsFinal {d} {e} s v (inr (at_end, all)) = inr (
    (Step_end s v (inr (at_end, all))).0 ∙ at_end,
    all_there-Later d.members e.members (Step-Later s v) all,
  )

  Reach-end : {d e : Delivery c} → Reach d e → IsValid d → IsFinal d → IsFinal e × IsSameEnd d e
  Reach-end here v f = (f, (refl, refl))
  Reach-end (next r s) v f =
      let (f', (state, outcome)) = Reach-end r v f in
      let v' = Reach-IsValid r v in
      let (state', outcome') = Step_end s v' f' in
      (Step-IsFinal s v' f', (state' ∙ state, outcome' ∙ outcome))

  -- Once a delivery is suppressed, or delivered with every member's receipt there, no transitions
  -- change its callback's state or its terminal outcome.
  pub final_stays :
      (d e : Delivery c)
      → IsValid d
      → IsFinal d
      → Reach d e
      → (e.callback_state ≡ d.callback_state) × (e.terminal_outcome ≡ d.terminal_outcome)
  final_stays d e v f r = (Reach-end r v f).1
