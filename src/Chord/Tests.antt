-- ===== src/Chord/Tests.antt =====
-- Runs of a durable chord with two members, over a coding made up for them.
use gkit.Prelude.{ℕ, ◌≡◌, refl, true, none, some, List, [], ◌∷◌, get_elem?, inr}
use gkit.Prelude.Int.{pos}
use gkit.Prelude.Map.{String}
use gkit.Chord.Delivery.{
  lease_lost, member_leased, member_terminal, ready, delivered, success, failure, Coding, Member,
  Delivery, Registration, new_delivery, outcome_succeeded,
}
use gkit.Chord.Member.{
  MemberClaim, MemberLease, PublishOutcome, prepare_members, claim_member, publish_member,
}
use gkit.Chord.Receipt.{apply_member_terminal}
use gkit.Chord.Callback.{CallbackClaim, CallbackLease, claim_callback, apply_callback_terminal}
use gkit.Chord.Valid.{is_open, IsValid}
use gkit.Chord.Steps.{prepares, reports, Reach, here, next}
use gkit.Chord.Safety.{reachable-IsValid}
use gkit.Chord.Fencing.{receipt_stays, stale_lease_refused}
use gkit.Chord.Final.{IsFinal, final_stays}

abbrev coding : Coding
coding = record {
  TaskResult = ℕ;
  Signature = List ℕ;
  clone_results = some;
  marshal_receipt = λ k o rs. rs;
  unmarshal_signature = some;
  add_arg = λ r s. r ∷ s;
  marshal_signature = some;
}

abbrev registration : Registration
registration = record {
  delivery_key = "k";
  definition_hash = "h";
  group_id = "g";
  group_name = "group";
  retention = pos 0;
  callback = 7 ∷ [];
  members =
      record { ordinal = 0; task_id = "a"; payload = [] }
      ∷ record { ordinal = 1; task_id = "b"; payload = [] }
      ∷ [];
}

abbrev fresh : Delivery coding
fresh = new_delivery coding registration "owner" 5

abbrev prepared : Delivery coding
prepared = prepare_members coding 6 fresh

abbrev claim : String → ℕ → MemberClaim
claim owner now = record { ordinal = pos 0; owner = owner; now = now; lease_duration = pos 10 }

abbrev first_claimed : Delivery coding
first_claimed = (claim_member coding 10 (claim "x" 10) prepared).state

abbrev first_lease : MemberLease
first_lease = record {
  ordinal = 0;
  task_id = "a";
  payload = [];
  owner = "x";
  version = 3;
  expires_at = 20;
}

abbrev second_claimed : Delivery coding
second_claimed = (claim_member coding 30 (claim "y" 30) first_claimed).state

abbrev second_lease : MemberLease
second_lease = record first_lease { owner = "y"; version = 4; expires_at = 40 }

abbrev outcome : PublishOutcome
outcome = record {
  kind = outcome_succeeded;
  now = 31;
  confirmation_deadline = 0;
  next_attempt_at = 0;
  error = "";
}

first_lem : (claim_member coding 10 (claim "x" 10) prepared).lease ≡ some first_lease
unfolding new_delivery prepare_members claim_member
first_lem = refl

second_lem : (claim_member coding 30 (claim "y" 30) first_claimed).lease ≡ some second_lease
unfolding new_delivery prepare_members claim_member
second_lem = refl

prepared-Reach : Reach fresh prepared
prepared-Reach = next here (prepares 6 fresh)

reachable-IsValid_example : IsValid prepared
reachable-IsValid_example = reachable-IsValid registration "owner" 5 prepared prepared-Reach

prepared-IsValid : IsValid prepared
unfolding new_delivery prepare_members
prepared-IsValid = record { sealed = (refl, (refl, tt)); backed = refl; failed = refl }

stale_lease_refused_example :
    publish_member coding 31 first_lease outcome second_claimed
    ≡ record { state = second_claimed; error = some lease_lost }
stale_lease_refused_example =
    stale_lease_refused 10 30 31 (claim "x" 10) (claim "y" 30) first_lease second_lease outcome
      prepared first_claimed second_claimed prepared-IsValid refl refl first_lem here second_lem
      here

abbrev report : ℕ → String → ℕ → Delivery coding → Delivery coding
report i k r d = (apply_member_terminal coding 40 40 (pos i) k success (r ∷ []) d).state

abbrev reported : Delivery coding
reported = report 1 "b" 21 (report 0 "a" 20 second_claimed)

callback_ready : (reported.callback_state ≡ ready) × (reported.callback_payload ≡ 21 ∷ 20 ∷ 7 ∷ [])
unfolding new_delivery prepare_members claim_member apply_member_terminal
callback_ready = (refl, refl)

reported-IsValid : IsValid reported
unfolding new_delivery prepare_members claim_member apply_member_terminal
reported-IsValid = record { sealed = (refl, (refl, tt)); backed = refl; failed = refl }

abbrev callback_claim : CallbackClaim
callback_claim = record { owner = "z"; now = 50; lease_duration = pos 10 }

abbrev callback_lease : CallbackLease
callback_lease = record { payload = 21 ∷ 20 ∷ 7 ∷ []; owner = "z"; version = 3; expires_at = 60 }

callback_lease_lem : (claim_callback coding 50 callback_claim reported).lease ≡ some callback_lease
unfolding new_delivery prepare_members claim_member apply_member_terminal claim_callback
callback_lease_lem = refl

abbrev half : Delivery coding
half = report 0 "a" 20 second_claimed

abbrev half_member : Member coding
half_member = record {
  ordinal = 0;
  task_id = "a";
  payload = [];
  state = member_terminal;
  version = 5;
  lease_owner = "";
  lease_expires_at = 0;
  attempts = 2;
  next_attempt_at = 0;
  confirmation_deadline = 0;
  last_error = "";
  receipt = some (record { task_id = "a"; outcome = success; results = 20 ∷ [] });
}

half_at : get_elem? half.members 0 ≡ some half_member
unfolding new_delivery prepare_members claim_member apply_member_terminal
half_at = refl

half-IsValid : IsValid half
unfolding new_delivery prepare_members claim_member apply_member_terminal
half-IsValid = record { sealed = (refl, (refl, tt)); backed = refl; failed = refl }

second_report : (apply_member_terminal coding 40 40 (pos 1) "b" success (21 ∷ []) half).error ≡ none
unfolding new_delivery prepare_members claim_member apply_member_terminal
second_report = refl

receipt_stays_example :
    (n : Member coding) × (get_elem? reported.members 0 ≡ some n)
    × (n.receipt ≡ some (record { task_id = "a"; outcome = success; results = 20 ∷ [] }))
receipt_stays_example =
    receipt_stays 0 half_member (record { task_id = "a"; outcome = success; results = 20 ∷ [] })
      half reported half-IsValid half_at refl
      (next here (reports 40 40 (pos 1) "b" success (21 ∷ []) half second_report))

abbrev ended : Delivery coding
ended = (apply_callback_terminal coding 60 60 failure reported).state

ended-IsValid : IsValid ended
unfolding new_delivery prepare_members claim_member apply_member_terminal apply_callback_terminal
ended-IsValid = record { sealed = (refl, (refl, tt)); backed = refl; failed = refl }

ended-IsFinal : IsFinal ended
unfolding new_delivery prepare_members claim_member apply_member_terminal apply_callback_terminal
ended-IsFinal = inr (refl, refl)

final_stays_example :
    ((prepare_members coding 70 ended).callback_state ≡ ended.callback_state)
    × ((prepare_members coding 70 ended).terminal_outcome ≡ ended.terminal_outcome)
final_stays_example =
    final_stays ended (prepare_members coding 70 ended) ended-IsValid ended-IsFinal
      (next here (prepares 70 ended))

-- An end of the callback that comes before the receipts is taken, and the last receipt undoes it.
undone :
    let early = (apply_callback_terminal coding 35 35 success second_claimed).state in
    (early.callback_state ≡ delivered)
    × ((report 1 "b" 21 (report 0 "a" 20 early)).callback_state ≡ ready)
unfolding new_delivery prepare_members claim_member apply_member_terminal apply_callback_terminal
undone = (refl, refl)

abbrev claimed_member : Member coding
claimed_member = record half_member {
  state = member_leased;
  version = 3;
  lease_owner = "x";
  lease_expires_at = 20;
  attempts = 1;
  receipt = none;
}

reported_times :
    (is_open reported.callback_state ≡ true)
    × (reported.callback_lease_expires_at ≡ 0)
    × (reported.callback_confirmation_at ≡ 0)
    × (reported.callback_next_attempt_at ≡ 0)
unfolding new_delivery prepare_members claim_member apply_member_terminal
reported_times = (refl, refl, refl, refl)
