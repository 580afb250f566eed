-- ===== src/Chord/Keeping.antt =====
-- The creation of a delivery, its preparation and the claims of its members keep the invariant.
use gkit.Prelude.{
  ℕ, ◌≡◌, refl, sym, ap, ◌∙◌, true, false, some, List, [], ◌∷◌, set, get_elem?, arith, Bool-cases,
  Option-cases, inl, inr, ltb,
}
use gkit.Prelude.Int.{ℤ, pos, negsuc, pos_part}
use gkit.Prelude.Map.{String}
use gkit.Chord.Delivery.{
  MemberState, member_setup, member_ready, member_leased, member_published, member_publish_unknown,
  member_terminal, CallbackState, Coding, Member, Delivery, Registration, MemberRegistration,
  member_at, new_delivery, new_members, or_now,
}
use gkit.Chord.Member.{
  MemberClaim, same_kind, member_claimable, prepare_loop, prepare_members, lease_member, claim_at,
  claim_member,
}
use gkit.Chord.Valid.{
  is_terminal, receipts, is_some, AreSealed, IsValidAt, IsValid, AreSealed-get, AreSealed-set,
  receipts_kept,
}

new_members-AreSealed :
    (c : Coding) (ms : List MemberRegistration) → AreSealed {c = c} (new_members c ms)
unfolding new_members
new_members-AreSealed c [] = tt
new_members-AreSealed c (m ∷ ms) = (refl, new_members-AreSealed c ms)

setup_open : (s : MemberState) → same_kind s member_setup ≡ true → is_terminal s ≡ false
setup_open member_terminal h = absurd (ground (arith, h))
setup_open member_setup h = refl
setup_open member_ready h = refl
setup_open member_leased h = refl
setup_open member_published h = refl
setup_open member_publish_unknown h = refl

claimable_open :
    (s : MemberState) (expires deadline now : ℕ)
    → member_claimable s expires deadline now ≡ true
    → is_terminal s ≡ false
unfolding member_claimable
claimable_open member_terminal expires deadline now h = absurd (ground (arith, h))
claimable_open member_setup expires deadline now h = refl
claimable_open member_ready expires deadline now h = refl
claimable_open member_leased expires deadline now h = refl
claimable_open member_published expires deadline now h = refl
claimable_open member_publish_unknown expires deadline now h = refl

module _ {c : Coding} where
  pub new_delivery-IsValid :
      (reg : Registration) (owner : String) (now : ℕ) → IsValid (new_delivery c reg owner now)
  unfolding new_delivery
  new_delivery-IsValid reg owner now = record {
    sealed = new_members-AreSealed c reg.members;
    backed = refl;
    failed = refl;
  }

  receipts-prepare_loop : (ms : List (Member c)) → receipts (prepare_loop c ms) ≡ receipts ms
  unfolding prepare_loop
  receipts-prepare_loop [] = refl
  receipts-prepare_loop (m ∷ ms) = elim (Bool-cases (same_kind m.state member_setup)) [
    | inl fresh ↦ rw (fresh, receipts-prepare_loop ms) refl
    | inr old ↦ rw (old, receipts-prepare_loop ms) refl
  ]

  prepare_loop-AreSealed : (ms : List (Member c)) → AreSealed ms → AreSealed (prepare_loop c ms)
  unfolding prepare_loop
  prepare_loop-AreSealed [] h = tt
  prepare_loop-AreSealed (m ∷ ms) (k, h) = elim (Bool-cases (same_kind m.state member_setup)) [
    | inl fresh ↦ rw fresh (sym (setup_open m.state fresh) ∙ k, prepare_loop-AreSealed ms h)
    | inr old ↦ rw old (k, prepare_loop-AreSealed ms h)
  ]

  pub prepare_members-IsValid :
      (now : ℕ) (d : Delivery c) → IsValid d → IsValid (prepare_members c now d)
  unfolding prepare_members
  prepare_members-IsValid now d v =
      let same = receipts-prepare_loop d.members in
      record {
        sealed = prepare_loop-AreSealed d.members v.sealed;
        backed = rw same v.backed;
        failed = rw same v.failed;
      }

  -- A change of a member that keeps its receipt and fits it.
  pub valid_kept :
      (ms : List (Member c)) (s : CallbackState) (i : ℕ) (m m' : Member c)
      → get_elem? ms i ≡ some m
      → m'.receipt ≡ m.receipt
      → is_terminal m'.state ≡ is_terminal m.state
      → IsValidAt ms s
      → IsValidAt (set ms i m') s
  valid_kept ms s i m m' e k t v =
      let same = receipts_kept ms i m m' e k in
      let fits = t ∙ AreSealed-get ms i m v.sealed e ∙ ap is_some (sym k) in
      record {
        sealed = AreSealed-set ms i m' v.sealed fits;
        backed = rw same v.backed;
        failed = rw same v.failed;
      }

  claim_at-IsValid :
      (i now : ℕ) (claim : MemberClaim) (m : Member c) (d : Delivery c)
      → get_elem? d.members i ≡ some m
      → IsValid d
      → IsValid (claim_at c i now claim m d).state
  unfolding claim_at lease_member
  claim_at-IsValid i now claim m d e v =
      elim (Bool-cases (member_claimable m.state m.lease_expires_at m.confirmation_deadline now)) [
        | inl free ↦
            let open_ =
              claimable_open m.state m.lease_expires_at m.confirmation_deadline now free in
            elim (Bool-cases (ltb now m.next_attempt_at)) [
              | inl early ↦
                  rw (free, early)
                    (valid_kept d.members d.callback_state i m _ e refl (sym open_) v)
              | inr due ↦
                  rw (free, due) (valid_kept d.members d.callback_state i m _ e refl (sym open_) v)
            ]
        | inr held ↦ rw held v
      ]

  pub member_at-get :
      (o : ℤ) (ms : List (Member c)) (m : Member c)
      → member_at c o ms ≡ some m
      → get_elem? ms (pos_part o) ≡ some m
  member_at-get (pos i) ms m e = e
  member_at-get (negsuc i) ms m e = absurd (ground (arith, e))

  pub claim_member-IsValid :
      (clock : ℕ) (claim : MemberClaim) (d : Delivery c)
      → IsValid d
      → IsValid (claim_member c clock claim d).state
  unfolding claim_member
  claim_member-IsValid clock claim d v = elim (Option-cases (member_at c claim.ordinal d.members)) [
    | inl out ↦ rw (claim_member, out) v
    | inr (m, e) ↦
        rw (claim_member, e)
          (claim_at-IsValid (pos_part claim.ordinal) (or_now clock claim.now) claim m d
            (member_at-get claim.ordinal d.members m e) v)
  ]
