-- ===== src/Chord/Member.antt =====
-- distributed/backend/durable_chord.go: the transitions of a chord's members. Each is a function of
-- the record as the pointer shows it after the call, with what the call returned.
use gkit.Prelude.{
  ℕ, ◌+◌, ◌*◌, Bool, true, false, not, ◌&&◌, Option, none, some, List, [], ◌∷◌, ltb, ◌==◌,
  if◌then◌else◌, set, get_elem?,
}
use Prim.Native.String.{◌++◌}
use gkit.Prelude.Int.{ℤ, pos_part}
use gkit.Prelude.Map.{String, ◌=?◌}
use gkit.Chord.Delivery.{
  ChordError, not_found, lease_lost, MemberState, member_setup, member_ready, member_leased,
  member_published, member_publish_unknown, member_terminal, failure, PublishOutcomeKind,
  outcome_succeeded, outcome_unknown, outcome_rejected, Coding, Receipt, Member, Delivery, second,
  or_now, lease_end, deadline_or_default, member_at, set_suppressed,
}

pub record MemberClaim : Type 0 where
  pub ordinal : ℤ
  pub owner : String
  pub now : ℕ
  pub lease_duration : ℤ

pub record MemberLease : Type 0 where
  pub ordinal : ℕ
  pub task_id : String
  pub payload : List ℕ
  pub owner : String
  pub version : ℕ
  pub expires_at : ℕ

pub record PublishOutcome : Type 0 where
  pub kind : PublishOutcomeKind
  pub now : ℕ
  pub confirmation_deadline : ℕ
  pub next_attempt_at : ℕ
  pub error : String

-- The state of the record after a call, and the error that it returned.
pub record After (c : Coding) : Type 0 where
  pub state : Delivery c
  pub error : Option ChordError

-- The same of a claim, with the lease that it gave.
pub record Claimed (c : Coding) (L : Type 0) : Type 0 where
  pub state : Delivery c
  pub lease : Option L
  pub error : Option ChordError

abbrev pub same_kind : MemberState → MemberState → Bool
same_kind member_setup member_setup = true
same_kind member_ready member_ready = true
same_kind member_leased member_leased = true
same_kind member_published member_published = true
same_kind member_publish_unknown member_publish_unknown = true
same_kind member_terminal member_terminal = true
same_kind s t = false

-- Whether a member's state lets a claim through at a time, and whether it waits for a setup.
unfoldable pub member_claimable : MemberState → ℕ → ℕ → ℕ → Bool
member_claimable member_setup expires deadline now = false
member_claimable member_ready expires deadline now = true
member_claimable member_leased expires deadline now = not (ltb now expires)
member_claimable member_published expires deadline now = not (ltb now deadline)
member_claimable member_publish_unknown expires deadline now = not (ltb now deadline)
member_claimable member_terminal expires deadline now = false

abbrev category : PublishOutcomeKind → String
category outcome_succeeded = "published"
category outcome_unknown = "unknown"
category outcome_rejected = "rejected"

-- chordErrorSummary; `operation` is the text up to the category.
unfoldable pub error_summary : String → PublishOutcome → String
error_summary operation outcome =
    if outcome.error =? "" then "" else operation ++ category outcome.kind

module _ (c : Coding) where
  abbrev pub write_member : ℕ → Member c → Delivery c → Delivery c
  write_member i m d = record d { members = set d.members i m }

  unfoldable pub prepare_loop : List (Member c) → List (Member c)
  prepare_loop [] = []
  prepare_loop (m ∷ ms) =
      (if same_kind m.state member_setup
        then record m { state = member_ready; version = m.version + 1 }
        else m)
      ∷ prepare_loop ms

  -- PrepareChordMembers.
  unfoldable pub prepare_members : ℕ → Delivery c → Delivery c
  unfolding prepare_loop
  prepare_members now d = record d {
    members = prepare_loop d.members;
    version = d.version + 1;
    updated_at = now;
  }

  -- The member as a claim leaves it: leased by the owner, a version later.
  unfoldable pub lease_member : MemberClaim → ℕ → Member c → Member c
  unfolding lease_end
  lease_member claim now m = record m {
    state = member_leased;
    lease_owner = claim.owner;
    lease_expires_at = lease_end now claim.lease_duration;
    version = m.version + 1;
    attempts = m.attempts + 1;
  }

  abbrev pub lease_of : String → Member c → MemberLease
  lease_of owner m = record {
    ordinal = m.ordinal;
    task_id = m.task_id;
    payload = m.payload;
    owner = owner;
    version = m.version;
    expires_at = m.lease_expires_at;
  }

  -- The claim of the member at an index.
  unfoldable pub claim_at : ℕ → ℕ → MemberClaim → Member c → Delivery c → Claimed c MemberLease
  unfolding member_claimable lease_member
  claim_at i now claim m d =
      let m' = lease_member claim now m in
      let d' = write_member i m' d in
      if not (member_claimable m.state m.lease_expires_at m.confirmation_deadline now)
      then record { state = d; lease = none; error = none }
      else if ltb now m.next_attempt_at
      then record {
        state = write_member i (record m { state = member_ready }) d;
        lease = none;
        error = none;
      }
      else record {
        state = record d' {
          member_publication_started = true;
          version = d.version + 1;
          updated_at = now;
        };
        lease = some (lease_of claim.owner m');
        error = none;
      }

  -- ClaimChordMember.
  unfoldable pub claim_member : ℕ → MemberClaim → Delivery c → Claimed c MemberLease
  unfolding claim_at or_now
  claim_member clock claim d = elim (member_at c claim.ordinal d.members) [
    | none ↦ record { state = d; lease = none; error = some not_found }
    | some m ↦ claim_at (pos_part claim.ordinal) (or_now clock claim.now) claim m d
  ]

  -- The member without its lease, a version later.
  unfoldable pub release_member : PublishOutcome → Member c → Member c
  unfolding error_summary
  release_member outcome m = record m {
    lease_owner = "";
    lease_expires_at = 0;
    last_error = error_summary "operation=member_publish category=" outcome;
    next_attempt_at =
        if outcome.next_attempt_at == 0 then m.next_attempt_at else outcome.next_attempt_at;
    version = m.version + 1;
  }

  unfoldable pub confirm_by : ℕ → PublishOutcome → ℕ
  unfolding deadline_or_default
  confirm_by now outcome = deadline_or_default outcome.confirmation_deadline (now + 30 * second)

  -- ApplyChordMemberPublishOutcome, by the kind of the outcome.
  unfoldable pub publish_as :
      PublishOutcomeKind → ℕ → ℕ → ℕ → PublishOutcome → Member c → Delivery c → Delivery c
  unfolding release_member set_suppressed confirm_by
  publish_as outcome_succeeded clock now i outcome m d =
      write_member i
        (record (release_member outcome m) {
          state = member_published;
          confirmation_deadline = confirm_by now outcome;
        })
        (record d { version = d.version + 1; updated_at = now })
  publish_as outcome_unknown clock now i outcome m d =
      write_member i
        (record (release_member outcome m) {
          state = member_publish_unknown;
          confirmation_deadline = confirm_by now outcome;
        })
        (record d { version = d.version + 1; updated_at = now })
  publish_as outcome_rejected clock now i outcome m d =
      let rejection : Receipt c = record { task_id = m.task_id; outcome = failure; results = [] } in
      set_suppressed c clock now (
        write_member i
          (record (release_member outcome m) { state = member_terminal; receipt = some rejection })
          (record d { version = d.version + 1; updated_at = now }))

  -- Whether a lease is the one that the member was given last.
  abbrev pub holds_lease : MemberLease → Member c → Bool
  holds_lease lease m =
      same_kind m.state member_leased
      && (m.lease_owner =? lease.owner)
      && (m.version == lease.version)

  -- ApplyChordMemberPublishOutcome.
  unfoldable pub publish_member : ℕ → MemberLease → PublishOutcome → Delivery c → After c
  unfolding publish_as or_now
  publish_member clock lease outcome d = elim (get_elem? d.members lease.ordinal) [
    | none ↦ record { state = d; error = some not_found }
    | some m ↦
        if holds_lease lease m
        then record {
          state =
              publish_as outcome.kind clock (or_now clock outcome.now) lease.ordinal outcome m d;
          error = none;
        }
        else record { state = d; error = some lease_lost }
  ]
