-- ===== src/Chord/Fencing.antt =====
-- Leases and receipts over any run of transitions: an earlier lease of a member is refused, and its
-- first receipt stays.
use gkit.Prelude.{
  ℕ, zero, suc, ◌+◌, ◌≡◌, refl, sym, ap, subst, ◌∙◌, false, some, List, [], ◌∷◌, set, get_elem?,
  arith, Bool-cases, Option-cases, inl, inr, ◌==◌, ltb, ◌<◌,
}
use gkit.Prelude.Int.{pos_part}
use mathlib.Core.Option.{some-injective}
use gkit.Chord.Delivery.{
  lease_lost, CallbackState, waiting, ready, leased, published, publish_unknown, delivered,
  suppressed, TerminalOutcome, Coding, Receipt, Member, Delivery, set_terminal_time, member_at,
  outcome_succeeded, outcome_unknown, outcome_rejected, or_now, PublishOutcomeKind,
}
use gkit.Chord.Member.{
  MemberClaim, MemberLease, PublishOutcome, member_claimable, prepare_members, lease_member,
  claim_at, claim_member, publish_member, holds_lease,
}
use gkit.Chord.Callback.{
  CallbackClaim, CallbackLease, callback_claimable, claim_callback, lease_callback,
  publish_callback, publish_callback_as, release_callback, deliver, terminal_from,
  apply_callback_terminal, holds_callback,
}
use gkit.Chord.Valid.{IsValid}
use gkit.Chord.Steps.{
  Step, prepares, claims, publishes, reports, claims_callback, publishes_callback, ends_callback,
  Reach, here, next,
}
use gkit.Chord.Keeping.{claim_member-IsValid, member_at-get, claim_member-IsValid}
use gkit.Chord.Safety.{Reach-IsValid}
use gkit.Chord.Steps.{
  Step, prepares, claims, publishes, reports, claims_callback, publishes_callback, ends_callback,
  Reach, here, next,
}
use gkit.Chord.Growing.{
  IsKept, Later, Later-refl, Later-trans, Later-get, prepare_loop-Later, claim_member-Later,
  publish_member-Later, apply_member_terminal-Later,
}

module _ {c : Coding} where
  members-claim_callback :
      (clock : ℕ) (claim : CallbackClaim) (d : Delivery c)
      → (claim_callback c clock claim d).state.members ≡ d.members
  unfolding claim_callback lease_callback
  members-claim_callback clock claim d =
      let now = or_now clock claim.now in
      elim (Bool-cases (
        callback_claimable d.callback_state d.callback_lease_expires_at d.callback_confirmation_at
          now)) [
            | inl free ↦ elim (Bool-cases (ltb now d.callback_next_attempt_at)) [
              | inl early ↦ rw (claim_callback, free, early) refl
              | inr due ↦ rw (claim_callback, free, due) refl
            ]
            | inr held ↦ rw (claim_callback, held) refl
          ]

  members-publish_callback_as :
      (kind : PublishOutcomeKind) (now : ℕ) (outcome : PublishOutcome) (d : Delivery c)
      → (publish_callback_as c kind now outcome d).members ≡ d.members
  unfolding publish_callback_as release_callback
  members-publish_callback_as outcome_succeeded now outcome d = refl
  members-publish_callback_as outcome_unknown now outcome d = refl
  members-publish_callback_as outcome_rejected now outcome d = refl

  members-publish_callback :
      (clock : ℕ) (lease : CallbackLease) (outcome : PublishOutcome) (d : Delivery c)
      → (publish_callback c clock lease outcome d).state.members ≡ d.members
  unfolding publish_callback
  members-publish_callback clock lease outcome d = elim (Bool-cases (holds_callback c lease d)) [
    | inl held ↦
        rw (publish_callback, held)
          (members-publish_callback_as outcome.kind (or_now clock outcome.now) outcome d)
    | inr lost ↦ rw (publish_callback, lost) refl
  ]

  members-terminal_from :
      (s : CallbackState) (clock now : ℕ) (outcome : TerminalOutcome) (d : Delivery c)
      → (terminal_from c s clock now outcome d).state.members ≡ d.members
  unfolding terminal_from deliver set_terminal_time
  members-terminal_from delivered clock now outcome d = refl
  members-terminal_from suppressed clock now outcome d = refl
  members-terminal_from waiting clock now outcome d = refl
  members-terminal_from ready clock now outcome d = refl
  members-terminal_from leased clock now outcome d = refl
  members-terminal_from published clock now outcome d = refl
  members-terminal_from publish_unknown clock now outcome d = refl

  Later-same : {ms ns : List (Member c)} → ns ≡ ms → Later ms ns
  Later-same {ms} e = subst (Later ms) (sym e) (Later-refl ms)

  pub Step-Later : {d e : Delivery c} → Step d e → IsValid d → Later d.members e.members
  unfolding prepare_members apply_callback_terminal
  Step-Later (prepares now d) v = prepare_loop-Later d.members
  Step-Later (claims clock claim lease d h) v = claim_member-Later clock claim d
  Step-Later (publishes clock lease outcome d h) v = publish_member-Later clock lease outcome d v
  Step-Later (reports clock now ordinal task_id outcome results d h) v =
      apply_member_terminal-Later clock now ordinal task_id outcome results d
  Step-Later (claims_callback clock claim lease d h) v =
      Later-same (members-claim_callback clock claim d)
  Step-Later (publishes_callback clock lease outcome d h) v =
      Later-same (members-publish_callback clock lease outcome d)
  Step-Later (ends_callback clock now outcome d h) v =
      Later-same (members-terminal_from d.callback_state clock now outcome d)

  Reach-Later : {d e : Delivery c} → Reach d e → IsValid d → Later d.members e.members
  Reach-Later here v = Later-refl _
  Reach-Later (next r s) v = Later-trans _ _ _ (Reach-Later r v) (Step-Later s (Reach-IsValid r v))

  -- The first receipt of a member stays, whatever transitions follow.
  pub receipt_stays :
      (i : ℕ) (m : Member c) (r : Receipt c) (d e : Delivery c)
      → IsValid d
      → get_elem? d.members i ≡ some m
      → m.receipt ≡ some r
      → Reach d e
      → (n : Member c) × (get_elem? e.members i ≡ some n) × (n.receipt ≡ some r)
  receipt_stays i m r d e v at came reach =
      let (n, there, (grows, kept)) = Later-get d.members e.members i m (Reach-Later reach v) at in
      (n, there, subst (λ q. IsKept q n.receipt) came kept)

  refused :
      (clock : ℕ) (lease : MemberLease) (outcome : PublishOutcome) (m : Member c) (d : Delivery c)
      → get_elem? d.members lease.ordinal ≡ some m
      → lease.version < m.version
      → publish_member c clock lease outcome d ≡ record { state = d; error = some lease_lost }
  unfolding publish_member
  refused clock lease outcome m d at newer =
      let other : (m.version == lease.version) ≡ false = ground arith in
      let lost : holds_lease c lease m ≡ false = ground (arith, other) in
      rw (publish_member, at, lost) refl

  get_elem?-set_same :
      (ms : List (Member c)) (i : ℕ) (m n : Member c)
      → get_elem? ms i ≡ some m
      → get_elem? (set ms i n) i ≡ some n
  get_elem?-set_same [] i m n e = absurd (ground (arith, e))
  get_elem?-set_same (x ∷ ms) zero m n e = refl
  get_elem?-set_same (x ∷ ms) (suc i) m n e = get_elem?-set_same ms i m n e

  claim_at_leased :
      (i now : ℕ) (claim : MemberClaim) (lease : MemberLease) (m : Member c) (d : Delivery c)
      → get_elem? d.members i ≡ some m
      → (claim_at c i now claim m d).lease ≡ some lease
      → (n : Member c) × (get_elem? (claim_at c i now claim m d).state.members i ≡ some n)
        × (n.version ≡ m.version + 1)
        × (lease.version ≡ m.version + 1)
  unfolding claim_at lease_member
  claim_at_leased i now claim lease m d e h =
      elim (Bool-cases (member_claimable m.state m.lease_expires_at m.confirmation_deadline now)) [
        | inl free ↦ elim (Bool-cases (ltb now m.next_attempt_at)) [
          | inl early ↦ absurd (ground (arith, h, free, early))
          | inr due ↦ (
            lease_member c claim now m,
            rw (free, due) (get_elem?-set_same d.members i m _ e),
            refl,
            ground (arith, h, free, due),
          )
        ]
        | inr held ↦ absurd (ground (arith, h, held))
      ]

  claim_member_leased :
      (clock : ℕ) (claim : MemberClaim) (lease : MemberLease) (d : Delivery c)
      → (claim_member c clock claim d).lease ≡ some lease
      → let i = pos_part claim.ordinal in
        (m : Member c) × (get_elem? d.members i ≡ some m)
        × ((n : Member c) × (get_elem? (claim_member c clock claim d).state.members i ≡ some n)
            × (n.version ≡ m.version + 1)
            × (lease.version ≡ m.version + 1))
  unfolding claim_member
  claim_member_leased clock claim lease d h =
      elim (Option-cases (member_at c claim.ordinal d.members)) [
        | inl out ↦ absurd (ground (arith, h, out))
        | inr (m, e) ↦
            let at = member_at-get claim.ordinal d.members m e in
            let same : claim_member c clock claim d
                ≡ claim_at c (pos_part claim.ordinal) (or_now clock claim.now) claim m d =
              rw (claim_member, e) refl in
            let h' = sym (ap (λ r. r.lease) same) ∙ h in
            let found =
              claim_at_leased (pos_part claim.ordinal) (or_now clock claim.now) claim lease m d at
                h' in
            (m, at, rw same found)
      ]

  -- A lease of a member is fenced off by the next: once the member has been claimed again, whatever
  -- happened between and since, what the earlier holder reports of its publication is refused with
  -- ErrChordLeaseLost and changes nothing. Both claims are of the member that the lease names.
  pub stale_lease_refused :
      (t t' t'' : ℕ) (claim claim' : MemberClaim) (lease lease' : MemberLease)
      (outcome : PublishOutcome) (d f g : Delivery c)
      → IsValid d
      → pos_part claim.ordinal ≡ lease.ordinal
      → pos_part claim'.ordinal ≡ lease.ordinal
      → (claim_member c t claim d).lease ≡ some lease
      → Reach (claim_member c t claim d).state f
      → (claim_member c t' claim' f).lease ≡ some lease'
      → Reach (claim_member c t' claim' f).state g
      → publish_member c t'' lease outcome g ≡ record { state = g; error = some lease_lost }
  stale_lease_refused t t' t'' claim claim' lease lease' outcome d f g v o o' h r h' r' =
      let (m, at, (n, at', grown, same)) = claim_member_leased t claim lease d h in
      let v1 = claim_member-IsValid t claim d v in
      let e1 = (claim_member c t claim d).state in
      let (p, at_f, (less, _)) = Later-get e1.members f.members _ n (Reach-Later r v1) at' in
      let v2 = Reach-IsValid r v1 in
      let (q, at_q, (u, at_u, grown', _)) = claim_member_leased t' claim' lease' f h' in
      let e2 = (claim_member c t' claim' f).state in
      let v3 = claim_member-IsValid t' claim' f v2 in
      let (w, at_w, (less', _)) = Later-get e2.members g.members _ u (Reach-Later r' v3) at_u in
      let met = sym at_q ∙ ap (get_elem? f.members) (o' ∙ sym o) ∙ at_f in
      let version : q.version ≡ p.version = ap (λ k. k.version) (some-injective q p met) in
      let at_lease = ap (get_elem? g.members) (sym o') ∙ at_w in
      refused t'' lease outcome w g at_lease
        (omega (arith, grown, same, less, version, grown', less'))
