-- ===== src/Chord/Growing.antt =====
-- What no transition of a chord's members takes back: a member's version only grows, and its first
-- receipt stays.
use gkit.Prelude.{
  ℕ, zero, suc, ◌≡◌, refl, sym, ap, subst, ◌∙◌, true, false, Option, none, some, List, [], ◌∷◌, set,
  get_elem?, arith, Bool-cases, Option-cases, inl, inr, ltb, ◌≤◌,
}
use gkit.Prelude.Int.{ℤ, pos_part}
use gkit.Prelude.Map.{String, ◌=?◌}
use mathlib.Core.Option.{some-injective}
use gkit.Chord.Delivery.{
  member_setup, CallbackState, waiting, ready, leased, published, publish_unknown, delivered,
  suppressed, TerminalOutcome, Coding, Receipt, Member, Delivery, set_suppressed, suppress_from,
  set_terminal_time, member_at, outcome_succeeded, outcome_unknown, outcome_rejected, or_now,
  PublishOutcomeKind,
}
use gkit.Chord.Member.{
  MemberClaim, MemberLease, PublishOutcome, same_kind, member_claimable, prepare_loop, lease_member,
  claim_at, claim_member, publish_as, release_member, publish_member, holds_lease,
}
use gkit.Chord.Receipt.{
  is_failure, Tally, some_missing, some_failed, all_succeeded, complete, first_receipt, receive,
  terminal_at, apply_member_terminal, build_payload,
}
use gkit.Chord.Valid.{is_some, IsValid, AreSealed-get}
use gkit.Chord.Reporting.{leased_open}
use gkit.Chord.Keeping.{member_at-get}

-- A receipt that is there stays.
module _ {c : Coding} where
  abbrev pub IsKept : Option (Receipt c) → Option (Receipt c) → Type 0
  IsKept none s = Unit
  IsKept (some r) s = s ≡ some r

  abbrev pub LaterMember : Member c → Member c → Type 0
  LaterMember m n = (m.version ≤ n.version) × IsKept m.receipt n.receipt

  abbrev pub Later : List (Member c) → List (Member c) → Type 0
  Later [] [] = Unit
  Later [] (n ∷ ns) = ⊥
  Later (m ∷ ms) [] = ⊥
  Later (m ∷ ms) (n ∷ ns) = LaterMember m n × Later ms ns

  IsKept-refl : (r : Option (Receipt c)) → IsKept r r
  IsKept-refl none = tt
  IsKept-refl (some r) = refl

  IsKept-trans : (r s t : Option (Receipt c)) → IsKept r s → IsKept s t → IsKept r t
  IsKept-trans none s t h k = tt
  IsKept-trans (some r) s t h k = subst (λ q. IsKept q t) h k

  pub Later-refl : (ms : List (Member c)) → Later ms ms
  Later-refl [] = tt
  Later-refl (m ∷ ms) = ((omega arith, IsKept-refl m.receipt), Later-refl ms)

  pub Later-trans : (ms ns ps : List (Member c)) → Later ms ns → Later ns ps → Later ms ps
  Later-trans [] [] ps h k = k
  Later-trans [] (n ∷ ns) ps h k = absurd h
  Later-trans (m ∷ ms) [] ps h k = absurd h
  Later-trans (m ∷ ms) (n ∷ ns) [] h k = absurd k
  Later-trans (m ∷ ms) (n ∷ ns) (p ∷ ps) ((l, r), h) ((l', r'), k) =
      ((omega arith, IsKept-trans m.receipt n.receipt p.receipt r r'), Later-trans ms ns ps h k)

  Later-set :
      (ms : List (Member c)) (i : ℕ) (m m' : Member c)
      → get_elem? ms i ≡ some m
      → LaterMember m m'
      → Later ms (set ms i m')
  Later-set [] i m m' e h = tt
  Later-set (x ∷ ms) zero m m' e h =
      (subst (λ y. LaterMember y m') (sym (some-injective x m e)) h, Later-refl ms)
  Later-set (x ∷ ms) (suc i) m m' e h =
      ((omega arith, IsKept-refl x.receipt), Later-set ms i m m' e h)

  pub Later-get :
      (ms ns : List (Member c)) (i : ℕ) (m : Member c)
      → Later ms ns
      → get_elem? ms i ≡ some m
      → (n : Member c) × (get_elem? ns i ≡ some n) × LaterMember m n
  Later-get [] ns i m h e = absurd (ground (arith, e))
  Later-get (x ∷ ms) [] i m h e = absurd h
  Later-get (x ∷ ms) (n ∷ ns) zero m h e =
      (n, refl, subst (λ y. LaterMember y n) (some-injective x m e) h.0)
  Later-get (x ∷ ms) (n ∷ ns) (suc i) m h e = Later-get ms ns i m h.1 e

  unfinished : (r s : Option (Receipt c)) → is_some r ≡ false → IsKept r s
  unfinished none s h = tt
  unfinished (some r) s h = absurd (ground (arith, h))

  pub prepare_loop-Later : (ms : List (Member c)) → Later ms (prepare_loop c ms)
  unfolding prepare_loop
  prepare_loop-Later [] = tt
  prepare_loop-Later (m ∷ ms) = elim (Bool-cases (same_kind m.state member_setup)) [
    | inl fresh ↦ rw fresh ((omega arith, IsKept-refl m.receipt), prepare_loop-Later ms)
    | inr old ↦ rw old ((omega arith, IsKept-refl m.receipt), prepare_loop-Later ms)
  ]

  claim_at-Later :
      (i now : ℕ) (claim : MemberClaim) (m : Member c) (d : Delivery c)
      → get_elem? d.members i ≡ some m
      → Later d.members (claim_at c i now claim m d).state.members
  unfolding claim_at lease_member
  claim_at-Later i now claim m d e =
      elim (Bool-cases (member_claimable m.state m.lease_expires_at m.confirmation_deadline now)) [
        | inl free ↦ elim (Bool-cases (ltb now m.next_attempt_at)) [
          | inl early ↦
              rw (free, early) (Later-set d.members i m _ e (omega arith, IsKept-refl m.receipt))
          | inr due ↦
              rw (free, due) (Later-set d.members i m _ e (omega arith, IsKept-refl m.receipt))
        ]
        | inr held ↦ rw held (Later-refl d.members)
      ]

  pub claim_member-Later :
      (clock : ℕ) (claim : MemberClaim) (d : Delivery c)
      → Later d.members (claim_member c clock claim d).state.members
  unfolding claim_member
  claim_member-Later clock claim d = elim (Option-cases (member_at c claim.ordinal d.members)) [
    | inl out ↦ rw (claim_member, out) (Later-refl d.members)
    | inr (m, e) ↦
        rw (claim_member, e)
          (claim_at-Later (pos_part claim.ordinal) (or_now clock claim.now) claim m d
            (member_at-get claim.ordinal d.members m e))
  ]

  members-suppress_from :
      (s : CallbackState) (clock now : ℕ) (d : Delivery c)
      → (suppress_from c s clock now d).members ≡ d.members
  unfolding suppress_from set_terminal_time
  members-suppress_from delivered clock now d = refl
  members-suppress_from suppressed clock now d = refl
  members-suppress_from waiting clock now d = refl
  members-suppress_from ready clock now d = refl
  members-suppress_from leased clock now d = refl
  members-suppress_from published clock now d = refl
  members-suppress_from publish_unknown clock now d = refl

  members-set_suppressed :
      (clock now : ℕ) (d : Delivery c) → (set_suppressed c clock now d).members ≡ d.members
  unfolding set_suppressed
  members-set_suppressed clock now d = members-suppress_from d.callback_state clock now d

  publish_as-Later :
      (kind : PublishOutcomeKind) (clock now i : ℕ) (outcome : PublishOutcome) (m : Member c)
      (d : Delivery c)
      → get_elem? d.members i ≡ some m
      → is_some m.receipt ≡ false
      → Later d.members (publish_as c kind clock now i outcome m d).members
  unfolding publish_as release_member
  publish_as-Later outcome_succeeded clock now i outcome m d e h =
      Later-set d.members i m _ e (omega arith, IsKept-refl m.receipt)
  publish_as-Later outcome_unknown clock now i outcome m d e h =
      Later-set d.members i m _ e (omega arith, IsKept-refl m.receipt)
  publish_as-Later outcome_rejected clock now i outcome m d e h =
      rw (members-set_suppressed clock now _)
        (Later-set d.members i m _ e (omega arith, unfinished m.receipt _ h))

  -- A lease is held only by a member that has no receipt.
  leased_unreported :
      (lease : MemberLease) (m : Member c) (d : Delivery c)
      → get_elem? d.members lease.ordinal ≡ some m
      → holds_lease c lease m ≡ true
      → IsValid d
      → is_some m.receipt ≡ false
  leased_unreported lease m d e held v =
      let fits = AreSealed-get d.members lease.ordinal m v.sealed e in
      let open_ = leased_open m.state (ground (arith, held)) in sym fits ∙ open_

  pub publish_member-Later :
      (clock : ℕ) (lease : MemberLease) (outcome : PublishOutcome) (d : Delivery c)
      → IsValid d
      → Later d.members (publish_member c clock lease outcome d).state.members
  unfolding publish_member
  publish_member-Later clock lease outcome d v =
      elim (Option-cases (get_elem? d.members lease.ordinal)) [
        | inl out ↦ rw (publish_member, out) (Later-refl d.members)
        | inr (m, e) ↦ elim (Bool-cases (holds_lease c lease m)) [
          | inl held ↦
              rw (publish_member, e, held)
                (publish_as-Later outcome.kind clock (or_now clock outcome.now) lease.ordinal
                  outcome m d e (leased_unreported lease m d e held v))
          | inr lost ↦ rw (publish_member, e, lost) (Later-refl d.members)
        ]
      ]

  members-complete :
      (t : Tally) (clock now : ℕ) (d : Delivery c)
      → (complete c t clock now d).state.members ≡ d.members
  unfolding complete
  members-complete some_missing clock now d = refl
  members-complete some_failed clock now d = members-set_suppressed clock now d
  members-complete all_succeeded clock now d = elim (Option-cases (build_payload c d)) [
    | inl failed ↦ rw (complete, failed) refl
    | inr (payload, built) ↦ rw (complete, built) refl
  ]

  first_receipt-Later :
      (clock now i : ℕ) (r : Receipt c) (m : Member c) (d : Delivery c)
      → get_elem? d.members i ≡ some m
      → m.receipt ≡ none
      → Later d.members (first_receipt c clock now i r m d).state.members
  unfolding first_receipt receive
  first_receipt-Later clock now i r m d e k =
      let none_yet : is_some m.receipt ≡ false = ap is_some k in
      elim (Bool-cases (is_failure r.outcome)) [
        | inl bad ↦
            rw (first_receipt, bad, members-set_suppressed clock now _)
              (Later-set d.members i m _ e (omega arith, unfinished m.receipt _ none_yet))
        | inr good ↦
            rw (first_receipt, good, members-complete _ clock now _)
              (Later-set d.members i m _ e (omega arith, unfinished m.receipt _ none_yet))
      ]

  pub apply_member_terminal-Later :
      (clock now : ℕ) (ordinal : ℤ) (task_id : String) (outcome : TerminalOutcome)
      (results : List c.TaskResult) (d : Delivery c)
      → Later d.members
          (apply_member_terminal c clock now ordinal task_id outcome results d).state.members
  unfolding apply_member_terminal terminal_at
  apply_member_terminal-Later clock now ordinal task_id outcome results d =
      elim (Option-cases (member_at c ordinal d.members)) [
        | inl out ↦ rw (apply_member_terminal, out) (Later-refl d.members)
        | inr (m, e) ↦ elim (Bool-cases (m.task_id =? task_id)) [
          | inl own ↦ elim (Option-cases (c.clone_results results)) [
            | inl uncoded ↦ rw (apply_member_terminal, e, own, uncoded) (Later-refl d.members)
            | inr (copy, coded) ↦ elim (Option-cases m.receipt) [
              | inl none_yet ↦
                  rw (apply_member_terminal, e, own, coded, terminal_at, none_yet)
                    (first_receipt-Later clock now (pos_part ordinal) _ m d
                      (member_at-get ordinal d.members m e) none_yet)
              | inr (r, came) ↦
                  rw (apply_member_terminal, e, own, coded, terminal_at, came)
                    (Later-refl d.members)
            ]
          ]
          | inr other ↦ rw (apply_member_terminal, e, other) (Later-refl d.members)
        ]
      ]
