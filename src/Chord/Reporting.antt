-- ===== src/Chord/Reporting.antt =====
-- The outcomes of a member's publication and the receipts keep the invariant.
use gkit.Prelude.{
  ℕ, ◌≡◌, refl, sym, ap, ◌∙◌, true, false, none, some, List, set, get_elem?, arith, Bool-cases,
  Option-cases, inl, inr,
}
use gkit.Prelude.Int.{ℤ, pos_part}
use gkit.Prelude.Map.{String, ◌=?◌}
use gkit.Chord.Delivery.{
  MemberState, member_setup, member_ready, member_leased, member_published, member_publish_unknown,
  member_terminal, CallbackState, waiting, ready, leased, published, publish_unknown, delivered,
  suppressed, TerminalOutcome, Coding, Receipt, Member, Delivery, set_suppressed, suppress_from,
  set_terminal_time, member_at, outcome_succeeded, outcome_unknown, outcome_rejected, or_now,
  PublishOutcomeKind,
}
use gkit.Chord.Member.{
  MemberLease, PublishOutcome, same_kind, publish_as, release_member, publish_member, holds_lease,
}
use gkit.Chord.Receipt.{
  is_failure, Tally, some_missing, some_failed, all_succeeded, tally, complete, first_receipt,
  receive, terminal_at, apply_member_terminal, build_payload,
}
use gkit.Chord.Valid.{
  is_terminal, is_open, is_suppressed, receipts, any_failed, is_some, AreSealed, IsValidAt, IsValid,
  AreSealed-set, receipts-set, get_elem?-receipts, all_in-none, any_failed-set, any_failed_kept,
  all_in-tally, any_failed-tally,
}
use gkit.Chord.Keeping.{valid_kept, member_at-get}

pub leased_open : (s : MemberState) → same_kind s member_leased ≡ true → is_terminal s ≡ false
leased_open member_leased h = refl
leased_open member_terminal h = absurd (ground (arith, h))
leased_open member_setup h = refl
leased_open member_ready h = refl
leased_open member_published h = refl
leased_open member_publish_unknown h = refl

module _ {c : Coding} where
  suppress_from-IsValid :
      (s : CallbackState) (clock now : ℕ) (d : Delivery c)
      → d.callback_state ≡ s
      → AreSealed d.members
      → any_failed (receipts d.members) ≡ true
      → IsValid (suppress_from c s clock now d)
  unfolding suppress_from set_terminal_time
  suppress_from-IsValid delivered clock now d e h k =
      rw e (record { sealed = h; backed = refl; failed = refl })
  suppress_from-IsValid suppressed clock now d e h k =
      rw e (record { sealed = h; backed = refl; failed = k })
  suppress_from-IsValid waiting clock now d e h k = record { sealed = h; backed = refl; failed = k }
  suppress_from-IsValid ready clock now d e h k = record { sealed = h; backed = refl; failed = k }
  suppress_from-IsValid leased clock now d e h k = record { sealed = h; backed = refl; failed = k }
  suppress_from-IsValid published clock now d e h k = record {
    sealed = h;
    backed = refl;
    failed = k;
  }
  suppress_from-IsValid publish_unknown clock now d e h k = record {
    sealed = h;
    backed = refl;
    failed = k;
  }

  set_suppressed-IsValid :
      (clock now : ℕ) (d : Delivery c)
      → AreSealed d.members
      → any_failed (receipts d.members) ≡ true
      → IsValid (set_suppressed c clock now d)
  unfolding set_suppressed
  set_suppressed-IsValid clock now d h k =
      suppress_from-IsValid d.callback_state clock now d refl h k

  -- A failure in a member's receipt.
  failed_set :
      (ms : List (Member c)) (i : ℕ) (m m' : Member c) (r : Receipt c)
      → get_elem? ms i ≡ some m
      → m'.receipt ≡ some r
      → is_failure r.outcome ≡ true
      → any_failed (receipts (set ms i m')) ≡ true
  failed_set ms i m m' r e k h =
      rw (receipts-set ms i m', k)
        (any_failed-set (receipts ms) i r m.receipt (get_elem?-receipts ms i m e) h)

  publish_as-IsValid :
      (kind : PublishOutcomeKind) (clock now i : ℕ) (outcome : PublishOutcome) (m : Member c)
      (d : Delivery c)
      → get_elem? d.members i ≡ some m
      → is_terminal m.state ≡ false
      → IsValid d
      → IsValid (publish_as c kind clock now i outcome m d)
  unfolding publish_as release_member
  publish_as-IsValid outcome_succeeded clock now i outcome m d e open_ v =
      valid_kept d.members d.callback_state i m _ e refl (sym open_) v
  publish_as-IsValid outcome_unknown clock now i outcome m d e open_ v =
      valid_kept d.members d.callback_state i m _ e refl (sym open_) v
  publish_as-IsValid outcome_rejected clock now i outcome m d e open_ v =
      set_suppressed-IsValid clock now _ (AreSealed-set d.members i _ v.sealed refl)
        (failed_set d.members i m _ _ e refl refl)

  pub publish_member-IsValid :
      (clock : ℕ) (lease : MemberLease) (outcome : PublishOutcome) (d : Delivery c)
      → IsValid d
      → IsValid (publish_member c clock lease outcome d).state
  unfolding publish_member
  publish_member-IsValid clock lease outcome d v =
      elim (Option-cases (get_elem? d.members lease.ordinal)) [
        | inl out ↦ rw (publish_member, out) v
        | inr (m, e) ↦ elim (Bool-cases (holds_lease c lease m)) [
          | inl held ↦
              let open_ : is_terminal m.state ≡ false =
                leased_open m.state (ground (arith, held)) in
              rw (publish_member, e, held)
                (publish_as-IsValid outcome.kind clock (or_now clock outcome.now) lease.ordinal
                  outcome m d e open_ v)
          | inr lost ↦ rw (publish_member, e, lost) v
        ]
      ]

  valid_reported :
      (ms : List (Member c)) (s : CallbackState) (i : ℕ) (m m' : Member c)
      → get_elem? ms i ≡ some m
      → m.receipt ≡ none
      → is_terminal m'.state ≡ is_some m'.receipt
      → IsValidAt ms s
      → IsValidAt (set ms i m') s
  valid_reported ms s i m m' e k fits v =
      let at = get_elem?-receipts ms i m e ∙ ap some k in
      let missing = all_in-none (receipts ms) i at in
      let closed : is_open s ≡ false = ground (arith, v.backed, missing) in
      record {
        sealed = AreSealed-set ms i m' v.sealed fits;
        backed = rw closed refl;
        failed = elim (Bool-cases (is_suppressed s)) [
          | inl down ↦
              let was : any_failed (receipts ms) ≡ true = ground (arith, v.failed, down) in
              rw (down, receipts-set ms i m') (any_failed_kept (receipts ms) i m'.receipt at was)
          | inr up ↦ rw up refl
        ];
      }

  complete-IsValid :
      (t : Tally) (clock now : ℕ) (d : Delivery c)
      → tally c d.members ≡ t
      → IsValid d
      → IsValid (complete c t clock now d).state
  unfolding complete
  complete-IsValid some_missing clock now d e v = v
  complete-IsValid some_failed clock now d e v =
      set_suppressed-IsValid clock now d v.sealed (any_failed-tally d.members e)
  complete-IsValid all_succeeded clock now d e v = elim (Option-cases (build_payload c d)) [
    | inl failed ↦ rw (complete, failed) v
    | inr (payload, built) ↦
        rw (complete, built)
          (record { sealed = v.sealed; backed = all_in-tally d.members e; failed = refl })
  ]

  first_receipt-IsValid :
      (clock now i : ℕ) (r : Receipt c) (m : Member c) (d : Delivery c)
      → get_elem? d.members i ≡ some m
      → m.receipt ≡ none
      → IsValid d
      → IsValid (first_receipt c clock now i r m d).state
  unfolding first_receipt receive
  first_receipt-IsValid clock now i r m d e k v = elim (Bool-cases (is_failure r.outcome)) [
    | inl bad ↦
        rw (first_receipt, bad)
          (set_suppressed-IsValid clock now _ (AreSealed-set d.members i _ v.sealed refl)
            (failed_set d.members i m _ r e refl bad))
    | inr good ↦
        rw (first_receipt, good)
          (complete-IsValid _ clock now _ refl
            (valid_reported d.members d.callback_state i m _ e k refl v))
  ]

  pub apply_member_terminal-IsValid :
      (clock now : ℕ) (ordinal : ℤ) (task_id : String) (outcome : TerminalOutcome)
      (results : List c.TaskResult) (d : Delivery c)
      → IsValid d
      → IsValid (apply_member_terminal c clock now ordinal task_id outcome results d).state
  unfolding apply_member_terminal terminal_at
  apply_member_terminal-IsValid clock now ordinal task_id outcome results d v =
      elim (Option-cases (member_at c ordinal d.members)) [
        | inl out ↦ rw (apply_member_terminal, out) v
        | inr (m, e) ↦ elim (Bool-cases (m.task_id =? task_id)) [
          | inl own ↦ elim (Option-cases (c.clone_results results)) [
            | inl uncoded ↦ rw (apply_member_terminal, e, own, uncoded) v
            | inr (copy, coded) ↦ elim (Option-cases m.receipt) [
              | inl none_yet ↦
                  rw (apply_member_terminal, e, own, coded, terminal_at, none_yet)
                    (first_receipt-IsValid clock now (pos_part ordinal) _ m d
                      (member_at-get ordinal d.members m e) none_yet v)
              | inr (r, came) ↦ rw (apply_member_terminal, e, own, coded, terminal_at, came) v
            ]
          ]
          | inr other ↦ rw (apply_member_terminal, e, other) v
        ]
      ]
