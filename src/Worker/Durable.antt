-- ===== src/Worker/Durable.antt =====
-- recordDurableTerminal of distributed/worker.go.
use gkit.Prelude.{Bool, false, Option, none, some, List, if◌then◌else◌}
use gkit.Prelude.Int.{ℤ}
use gkit.Prelude.Map.{String, Map, lookup, ◌=?◌}
use gkit.Worker.Signature.{Arg, MetaValue, string, metadata_bool, metadata_int, Signature, fields}
use gkit.Worker.Calls.{
  Terminal, member_terminal, callback_terminal, Env, bad_metadata, not_recorded, Action, return_nil,
  fail, ask,
}

module _ (env : Env) where
  -- The tail of recordDurableTerminal for a member, with its ordinal, `none` where there is no int.
  unfoldable pub record_member : String → Option ℤ → String → Terminal → List Arg → Action
  record_member key none id outcome results = fail bad_metadata
  record_member key (some n) id outcome results =
      ask (member_terminal key n id outcome results)
        (λ log. env.on_member log key n id outcome results) not_recorded

  abbrev pub ordinal_of : Option MetaValue → Option ℤ
  ordinal_of none = none
  ordinal_of (some v) = metadata_int v

  unfoldable pub record_callback : String → Terminal → Action
  record_callback key outcome =
      ask (callback_terminal key outcome) (λ log. env.on_callback log key outcome) not_recorded

  abbrev pub is_member : Option MetaValue → Bool
  is_member none = false
  is_member (some v) = metadata_bool v

  -- The delivery key of recordDurableTerminal, once it is there.
  unfoldable pub record_key : MetaValue → Map MetaValue → String → Terminal → List Arg → Action
  unfolding record_member record_callback
  record_key (string key) m id outcome results =
      if key =? ""
      then fail bad_metadata
      else if is_member (lookup "gkit.chord_member" m)
      then record_member key (ordinal_of (lookup "gkit.chord_member_ordinal" m)) id outcome results
      else record_callback key outcome
  record_key _ m id outcome results = fail bad_metadata

  unfoldable pub record_delivery :
      Option MetaValue → Map MetaValue → String → Terminal → List Arg → Action
  unfolding record_key
  record_delivery none m id outcome results = return_nil
  record_delivery (some v) m id outcome results = record_key v m id outcome results

  unfoldable pub record_meta : Option (Map MetaValue) → String → Terminal → List Arg → Action
  unfolding record_delivery
  record_meta none id outcome results = return_nil
  record_meta (some m) id outcome results =
      record_delivery (lookup "gkit.chord_delivery_key" m) m id outcome results

  unfoldable pub record_durable_terminal : Signature → Terminal → List Arg → Action
  unfolding record_meta
  record_durable_terminal s outcome results =
      if env.durable then record_meta (fields s).meta (fields s).id outcome results else return_nil
