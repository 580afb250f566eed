-- ===== src/Chord/Progress.antt =====
-- No lease or unconfirmed publication holds a member or the callback for ever.
use gkit.Prelude.{
  ℕ, suc, ◌+◌, ◌≡◌, refl, Bool, true, false, some, get_elem?, arith, ◌==◌, ltb, ◌≤◌, ◌<◌,
}
use gkit.Chord.Delivery.{
  MemberState, member_setup, member_terminal, CallbackState, waiting, ready, leased, published,
  publish_unknown, delivered, suppressed, Coding, Member, Delivery, or_now,
}
use gkit.Chord.Member.{MemberClaim, MemberLease, Claimed, write_member, holds_lease, lease_member}
use gkit.Chord.Callback.{
  CallbackClaim, callback_claimable, claim_callback, lease_callback, callback_lease_of,
}
use gkit.Chord.Valid.{is_open}

-- A claim's time, when it is one.
or_now-pos : (clock now : ℕ) → 0 < now → or_now clock now ≡ now
unfolding or_now
or_now-pos clock now h = let some_time : (now == 0) ≡ false = ground arith in rw some_time refl

abbrev pub is_published : MemberState → Bool
is_published member_setup = false
is_published member_terminal = false
is_published _ = true

due_callback :
    (s : CallbackState) (expires confirmation now : ℕ)
    → is_open s ≡ true
    → expires ≤ now
    → confirmation ≤ now
    → callback_claimable s expires confirmation now ≡ true
unfolding callback_claimable
due_callback waiting expires confirmation now p h k = absurd (ground (arith, p))
due_callback delivered expires confirmation now p h k = absurd (ground (arith, p))
due_callback suppressed expires confirmation now p h k = absurd (ground (arith, p))
due_callback ready expires confirmation now p h k = refl
due_callback leased expires confirmation now p h k = ground arith
due_callback published expires confirmation now p h k = ground arith
due_callback publish_unknown expires confirmation now p h k = ground arith

module _ {c : Coding} where
  -- What a claim of the member `m` at index `i` gives: a lease of the owner for a version that was
  -- not used before, which ends after the claim, and which the record then knows.
  unfoldable pub Leases : MemberClaim → ℕ → Member c → Claimed c MemberLease → Type 0
  Leases claim i m r =
      (lease : MemberLease) × (held : Member c) × (r.lease ≡ some lease)
      × (lease.owner ≡ claim.owner)
      × (lease.payload ≡ m.payload)
      × (lease.version ≡ suc m.version)
      × (claim.now < lease.expires_at)
      × (get_elem? r.state.members i ≡ some held)
      × (holds_lease c lease held ≡ true)

  -- The record after a claim of a member that is due.
  abbrev claimed : ℕ → MemberClaim → Member c → Delivery c → Delivery c
  claimed i claim m d = record (write_member c i (lease_member c claim claim.now m) d) {
    member_publication_started = true;
    version = d.version + 1;
    updated_at = claim.now;
  }

  -- A callback that may be published can be claimed by any owner as soon as its lease, its
  -- confirmation and its next attempt are due, and the lease carries its payload.
  pub claim_callback_due :
      (clock : ℕ) (claim : CallbackClaim) (d : Delivery c)
      → is_open d.callback_state ≡ true
      → 0 < claim.now
      → d.callback_lease_expires_at ≤ claim.now
      → d.callback_confirmation_at ≤ claim.now
      → d.callback_next_attempt_at ≤ claim.now
      → (claim_callback c clock claim d).lease
        ≡ some (callback_lease_of c claim.owner (lease_callback c claim claim.now d))
  unfolding claim_callback
  claim_callback_due clock claim d p t h k l =
      let free =
        due_callback d.callback_state d.callback_lease_expires_at d.callback_confirmation_at
          claim.now p h k in
      let due : ltb claim.now d.callback_next_attempt_at ≡ false = ground arith in
      rw (claim_callback, or_now-pos clock claim.now t, free, due) refl
