-- ===== src/Chord/Callback.antt =====
-- distributed/backend/durable_chord.go: the transitions of a chord's callback.
use gkit.Prelude.{
  ℕ, ◌+◌, ◌*◌, Bool, true, false, not, ◌&&◌, Option, none, some, List, ltb, ◌==◌, if◌then◌else◌,
}
use gkit.Prelude.Int.{ℤ}
use gkit.Prelude.Map.{String, ◌=?◌}
use gkit.Chord.Delivery.{
  ChordError, lease_lost, terminal_conflict, CallbackState, waiting, ready, leased, published,
  publish_unknown, delivered, suppressed, TerminalOutcome, success, failure, PublishOutcomeKind,
  outcome_succeeded, outcome_unknown, outcome_rejected, Coding, Delivery, second, or_now, lease_end,
  deadline_or_default, set_terminal_time,
}
use gkit.Chord.Member.{PublishOutcome, After, Claimed, error_summary}

pub record CallbackClaim : Type 0 where
  pub owner : String
  pub now : ℕ
  pub lease_duration : ℤ

pub record CallbackLease : Type 0 where
  pub payload : List ℕ
  pub owner : String
  pub version : ℕ
  pub expires_at : ℕ

-- Whether the callback's state lets a claim through at a time.
unfoldable pub callback_claimable : CallbackState → ℕ → ℕ → ℕ → Bool
callback_claimable waiting expires confirmation now = false
callback_claimable ready expires confirmation now = true
callback_claimable leased expires confirmation now = not (ltb now expires)
callback_claimable published expires confirmation now = not (ltb now confirmation)
callback_claimable publish_unknown expires confirmation now = not (ltb now confirmation)
callback_claimable delivered expires confirmation now = false
callback_claimable suppressed expires confirmation now = false

abbrev pub is_leased : CallbackState → Bool
is_leased leased = true
is_leased _ = false

abbrev same_outcome : TerminalOutcome → TerminalOutcome → Bool
same_outcome success success = true
same_outcome failure failure = true
same_outcome o p = false

module _ (c : Coding) where
  unfoldable pub lease_callback : CallbackClaim → ℕ → Delivery c → Delivery c
  unfolding lease_end
  lease_callback claim now d = record d {
    callback_state = leased;
    callback_lease_owner = claim.owner;
    callback_lease_expires_at = lease_end now claim.lease_duration;
    callback_version = d.callback_version + 1;
    callback_attempts = d.callback_attempts + 1;
    version = d.version + 1;
    updated_at = now;
  }

  abbrev pub callback_lease_of : String → Delivery c → CallbackLease
  callback_lease_of owner d = record {
    payload = d.callback_payload;
    owner = owner;
    version = d.callback_version;
    expires_at = d.callback_lease_expires_at;
  }

  -- ClaimChordCallback.
  unfoldable pub claim_callback : ℕ → CallbackClaim → Delivery c → Claimed c CallbackLease
  unfolding or_now callback_claimable lease_callback
  claim_callback clock claim d =
      let now = or_now clock claim.now in
      let d' = lease_callback claim now d in
      if not (
        callback_claimable d.callback_state d.callback_lease_expires_at d.callback_confirmation_at
          now)
      then record { state = d; lease = none; error = none }
      else if ltb now d.callback_next_attempt_at
      then record { state = record d { callback_state = ready }; lease = none; error = none }
      else record { state = d'; lease = some (callback_lease_of claim.owner d'); error = none }

  abbrev pub holds_callback : CallbackLease → Delivery c → Bool
  holds_callback lease d =
      is_leased d.callback_state
      && (d.callback_lease_owner =? lease.owner)
      && (d.callback_version == lease.version)

  -- The callback without its lease, a version later.
  unfoldable pub release_callback : ℕ → PublishOutcome → Delivery c → Delivery c
  unfolding error_summary
  release_callback now outcome d = record d {
    callback_lease_owner = "";
    callback_lease_expires_at = 0;
    callback_last_error = error_summary "operation=callback_publish category=" outcome;
    callback_version = d.callback_version + 1;
    version = d.version + 1;
    updated_at = now;
  }

  -- ApplyChordCallbackPublishOutcome, by the kind of the outcome.
  unfoldable pub publish_callback_as :
      PublishOutcomeKind → ℕ → PublishOutcome → Delivery c → Delivery c
  unfolding release_callback deadline_or_default
  publish_callback_as outcome_succeeded now outcome d = record (release_callback now outcome d) {
    callback_state = published;
    callback_confirmation_at =
        deadline_or_default outcome.confirmation_deadline (now + 30 * second);
  }
  publish_callback_as outcome_unknown now outcome d = record (release_callback now outcome d) {
    callback_state = publish_unknown;
    callback_confirmation_at =
        deadline_or_default outcome.confirmation_deadline (now + 30 * second);
  }
  publish_callback_as outcome_rejected now outcome d = record (release_callback now outcome d) {
    callback_state = ready;
    callback_next_attempt_at = deadline_or_default outcome.next_attempt_at (now + second);
  }

  -- ApplyChordCallbackPublishOutcome.
  unfoldable pub publish_callback : ℕ → CallbackLease → PublishOutcome → Delivery c → After c
  unfolding publish_callback_as or_now
  publish_callback clock lease outcome d =
      if holds_callback lease d
      then record {
        state = publish_callback_as outcome.kind (or_now clock outcome.now) outcome d;
        error = none;
      }
      else record { state = d; error = some lease_lost }

  unfoldable pub deliver : ℕ → ℕ → TerminalOutcome → Delivery c → Delivery c
  unfolding set_terminal_time
  deliver clock now outcome d =
      let d' =
        set_terminal_time c clock now
          (record d { callback_state = delivered; terminal_outcome = some outcome }) in
      record d' {
        callback_version = d.callback_version + 1;
        version = d.version + 1;
        updated_at = now;
      }

  -- A second report of the callback's end: the error, if it differs from the first.
  abbrev repeated : Option TerminalOutcome → TerminalOutcome → Option ChordError
  repeated none outcome = some terminal_conflict
  repeated (some o) outcome = if same_outcome o outcome then none else some terminal_conflict

  unfoldable pub terminal_from : CallbackState → ℕ → ℕ → TerminalOutcome → Delivery c → After c
  unfolding deliver
  terminal_from delivered clock now outcome d = record {
    state = d;
    error = repeated d.terminal_outcome outcome;
  }
  terminal_from suppressed clock now outcome d = record {
    state = d;
    error = some terminal_conflict;
  }
  terminal_from _ clock now outcome d = record { state = deliver clock now outcome d; error = none }

  -- ApplyChordCallbackTerminal.
  unfoldable pub apply_callback_terminal : ℕ → ℕ → TerminalOutcome → Delivery c → After c
  unfolding terminal_from
  apply_callback_terminal clock now outcome d = terminal_from d.callback_state clock now outcome d
