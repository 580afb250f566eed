-- ===== src/Chord/Delivery.antt =====
-- distributed/backend/durable_chord.go: the record of a chord's delivery, its creation and what its
-- transitions share. A time is in nanoseconds, with Go's zero time as 0; `clock` is the reading
-- of time.Now() that stands in for a zero time. Texts that are only compared are strings; encoding
-- and decoding are parameters.
use gkit.Prelude.{
  ℕ, zero, suc, ◌+◌, ◌*◌, Bool, false, Option, none, some, List, [], ◌∷◌, ◌==◌, if◌then◌else◌,
  get_elem?,
}
use gkit.Prelude.Int.{ℤ, pos, negsuc, ltb_ℤ, pos_part}
use gkit.Prelude.Map.{String}

pub data ChordError : Type 0 where
  not_found lease_lost receipt_conflict terminal_conflict : ChordError
  publication_started ownership_lost registration_conflict : ChordError
  encoding_failed : ChordError

pub data MemberState : Type 0 where
  member_setup member_ready member_leased member_published : MemberState
  member_publish_unknown member_terminal : MemberState

pub data CallbackState : Type 0 where
  waiting ready leased published publish_unknown delivered suppressed : CallbackState

pub data TerminalOutcome : Type 0 where
  success failure : TerminalOutcome

pub data PublishOutcomeKind : Type 0 where
  outcome_succeeded outcome_unknown outcome_rejected : PublishOutcomeKind

-- encoding/json on the types of the tasks: a copy by Marshal and Unmarshal, the bytes of a receipt,
-- and the callback's signature with one argument more for each result.
pub record Coding : Type 1 where
  pub TaskResult : Type 0
  pub Signature : Type 0
  pub clone_results : List TaskResult → Option (List TaskResult)
  pub marshal_receipt : String → TerminalOutcome → List TaskResult → List ℕ
  pub unmarshal_signature : List ℕ → Option Signature
  pub add_arg : TaskResult → Signature → Signature
  pub marshal_signature : Signature → Option (List ℕ)

module _ (c : Coding) where
  pub record Receipt : Type 0 where
    pub task_id : String
    pub outcome : TerminalOutcome
    pub results : List c.TaskResult

  pub record Member : Type 0 where
    pub ordinal : ℕ
    pub task_id : String
    pub payload : List ℕ
    pub state : MemberState
    pub version : ℕ
    pub lease_owner : String
    pub lease_expires_at : ℕ
    pub attempts : ℕ
    pub next_attempt_at : ℕ
    pub confirmation_deadline : ℕ
    pub last_error : String
    pub receipt : Option Receipt

  pub record Delivery : Type 0 where
    pub delivery_key : String
    pub definition_hash : String
    pub group_id : String
    pub group_name : String
    pub retention : ℤ
    pub registration_owner : String
    pub registration_version : ℕ
    pub version : ℕ
    pub member_publication_started : Bool
    pub callback_template : List ℕ
    pub callback_payload : List ℕ
    pub members : List Member
    pub callback_state : CallbackState
    pub callback_version : ℕ
    pub callback_lease_owner : String
    pub callback_lease_expires_at : ℕ
    pub callback_attempts : ℕ
    pub callback_next_attempt_at : ℕ
    pub callback_confirmation_at : ℕ
    pub callback_last_error : String
    pub terminal_outcome : Option TerminalOutcome
    pub terminal_at : ℕ
    pub terminal_expire_at : Option ℕ
    pub created_at : ℕ
    pub updated_at : ℕ

-- A member of a registration: its ordinal, task and payload.
pub record MemberRegistration : Type 0 where
  pub ordinal : ℕ
  pub task_id : String
  pub payload : List ℕ

pub record Registration : Type 0 where
  pub delivery_key : String
  pub definition_hash : String
  pub group_id : String
  pub group_name : String
  pub retention : ℤ
  pub callback : List ℕ
  pub members : List MemberRegistration

abbrev pub second : ℕ
second = 1000000000

-- NormalizeChordRetention.
unfoldable pub normalize_retention : ℤ → ℤ
normalize_retention (pos zero) = pos 3600
normalize_retention (pos (suc n)) = pos (suc n)
normalize_retention (negsuc n) = negsuc n

-- `if now.IsZero() { now = time.Now() }`
unfoldable pub or_now : ℕ → ℕ → ℕ
or_now clock now = if now == 0 then clock else now

-- now.Add(duration), with half a minute for a duration that is not positive.
unfoldable pub lease_end : ℕ → ℤ → ℕ
lease_end now duration =
    if ltb_ℤ (pos 0) duration then now + pos_part duration else now + 30 * second

unfoldable pub deadline_or_default : ℕ → ℕ → ℕ
deadline_or_default value fallback = if value == 0 then fallback else value

module _ (c : Coding) where
  unfoldable pub new_members : List MemberRegistration → List (Member c)
  new_members [] = []
  new_members (m ∷ ms) =
      record {
        ordinal = m.ordinal;
        task_id = m.task_id;
        payload = m.payload;
        state = member_setup;
        version = 1;
        lease_owner = "";
        lease_expires_at = 0;
        attempts = 0;
        next_attempt_at = 0;
        confirmation_deadline = 0;
        last_error = "";
        receipt = none;
      }
      ∷ new_members ms

  -- NewChordDelivery.
  unfoldable pub new_delivery : Registration → String → ℕ → Delivery c
  unfolding new_members normalize_retention
  new_delivery reg owner now = record {
    delivery_key = reg.delivery_key;
    definition_hash = reg.definition_hash;
    group_id = reg.group_id;
    group_name = reg.group_name;
    retention = normalize_retention reg.retention;
    registration_owner = owner;
    registration_version = 1;
    version = 1;
    member_publication_started = false;
    callback_template = reg.callback;
    callback_payload = [];
    members = new_members reg.members;
    callback_state = waiting;
    callback_version = 1;
    callback_lease_owner = "";
    callback_lease_expires_at = 0;
    callback_attempts = 0;
    callback_next_attempt_at = 0;
    callback_confirmation_at = 0;
    callback_last_error = "";
    terminal_outcome = none;
    terminal_at = 0;
    terminal_expire_at = none;
    created_at = now;
    updated_at = now;
  }

  -- The member that an ordinal names, if it is in range.
  abbrev pub member_at : ℤ → List (Member c) → Option (Member c)
  member_at (pos i) ms = get_elem? ms i
  member_at (negsuc i) ms = none

  -- setChordTerminalTime.
  unfoldable pub set_terminal_time : ℕ → ℕ → Delivery c → Delivery c
  unfolding or_now normalize_retention
  set_terminal_time clock now d =
      let t = or_now clock now in
      record d {
        terminal_at = t;
        terminal_expire_at =
            if ltb_ℤ d.retention (pos 0)
            then none
            else some (t + pos_part (normalize_retention d.retention) * second);
      }

  -- setChordSuppressed, by the callback's state.
  unfoldable pub suppress_from : CallbackState → ℕ → ℕ → Delivery c → Delivery c
  unfolding set_terminal_time
  suppress_from delivered clock now d = d
  suppress_from suppressed clock now d = d
  suppress_from _ clock now d =
      let d' =
        set_terminal_time clock now
          (record d { callback_state = suppressed; terminal_outcome = some failure }) in
      record d' { callback_version = d.callback_version + 1 }

  unfoldable pub set_suppressed : ℕ → ℕ → Delivery c → Delivery c
  unfolding suppress_from
  set_suppressed clock now d = suppress_from d.callback_state clock now d
