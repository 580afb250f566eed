-- ===== src/Generator.antt =====
-- generator/snowflake.go: the generator of 64-bit identifiers (39 bits of time in units of 10 ms, 8
-- of sequence, 16 of node), and the node number from an IP address.
-- `elapsedTime` starts at 0 and only grows, so it is a natural number; it is far from the bound of
-- int64. A reading of the clock is an argument, in nanoseconds since 1970.
pub mod Ids
pub mod Order
pub mod Wake
mod Tests
use gkit.Prelude.{
  ℕ, suc, ◌+◌, ◌-◌, ◌*◌, ◌/◌, ◌%◌, ◌^◌, ◌≡◌, ◌<◌, Bool, true, false, ◌&&◌, ◌||◌, Option, none, some,
  List, [], ◌∷◌, ltb, leb, ◌==◌, if◌then◌else◌,
}
use gkit.Prelude.Int.{ℤ, pos, negsuc, pos_part, sub_ℕ, ltb_ℤ, ◌-ℤ◌, ◌*ℤ◌}
use gkit.Prelude.Bits.{bit_and, bit_or}

abbrev pub time_bit : ℕ
time_bit = 39

abbrev pub node_bit : ℕ
node_bit = 16

abbrev pub sequence_bit : ℕ
sequence_bit = 8

-- In nanoseconds.
abbrev pub time_unit : ℕ
time_unit = 10_000_000

pub record Snowflake : Type 0 where
  pub start_time : ℤ
  pub elapsed_time : ℕ
  pub sequence : ℕ
  pub node : ℕ

-- UnixNano() / timeUnit, which rounds towards zero.
unfoldable pub to_snowflake_time : ℤ → ℤ
to_snowflake_time (pos n) = pos (n / time_unit)
to_snowflake_time (negsuc n) = sub_ℕ 0 (suc n / time_unit)

unfoldable pub current_elapsed_time : ℤ → ℕ → ℤ
current_elapsed_time start now = to_snowflake_time (pos now) -ℤ start

unfoldable pub sleep_time : ℤ → ℕ → ℤ
sleep_time overtime now = overtime *ℤ pos time_unit -ℤ pos (now % time_unit)

-- `none` is the error "over the time limit".
unfoldable pub to_id : Snowflake → Option ℕ
to_id s =
    if leb (2 ^ time_bit) s.elapsed_time
    then none
    else some (
        bit_or
          (bit_or (s.elapsed_time * 2 ^ (sequence_bit + node_bit) % 2 ^ 64)
            (s.sequence * 2 ^ node_bit % 2 ^ 64))
          s.node)

-- NextID's choice of time and sequence from the current time, and how long it sleeps, if it does;
-- sleepTime reads the clock again.
unfoldable pub choose : ℤ → ℕ → Snowflake → Snowflake × Option ℤ
choose current now' s =
    let sequence = bit_and ((s.sequence + 1) % 2 ^ 16) (2 ^ sequence_bit - 1) in
    let elapsed = s.elapsed_time + 1 in
    if ltb_ℤ (pos s.elapsed_time) current
    then (record s { elapsed_time = pos_part current; sequence = 0 }, none)
    else if sequence == 0
    then (
      record s { elapsed_time = elapsed; sequence = 0 },
      some (sleep_time (pos elapsed -ℤ current) now'),
    )
    else (record s { sequence = sequence }, none)

unfoldable pub advance : ℕ → ℕ → Snowflake → Snowflake × Option ℤ
unfolding choose
advance now now' s = choose (current_elapsed_time s.start_time now) now' s

unfoldable pub next_id : ℕ → ℕ → Snowflake → Snowflake × Option ℕ
unfolding advance
next_id now now' s = let s' = (advance now now' s).0 in (s', to_id s')

-- The map that Decompose returns.
pub record Parts : Type 0 where
  pub id : ℕ
  pub msb : ℕ
  pub time : ℕ
  pub sequence : ℕ
  pub node : ℕ

unfoldable pub decompose : ℕ → Parts
decompose id = record {
  id = id;
  msb = id / 2 ^ 63;
  time = id / 2 ^ (sequence_bit + node_bit);
  sequence = bit_and id ((2 ^ sequence_bit - 1) * 2 ^ node_bit) / 2 ^ node_bit;
  node = bit_and id (2 ^ node_bit - 1);
}

-- The start time of a new generator: Go's zero time, or nanoseconds since 1970.
pub data StartTime : Type 0 where
  zero_time : StartTime
  at : ℤ → StartTime

-- 2014-09-01 UTC, in time units.
abbrev pub default_start : ℤ
default_start = pos 140_952_960_000

abbrev pub fresh : ℤ → ℕ → Snowflake
fresh start node = record {
  start_time = start;
  elapsed_time = 0;
  sequence = 2 ^ sequence_bit - 1;
  node = node;
}

-- NewSnowflakeE; `none` is ErrStartTimeInFuture, for which NewSnowflake returns nil.
unfoldable pub new_snowflake : StartTime → ℕ → ℕ → Option Snowflake
unfolding to_snowflake_time
new_snowflake zero_time node now = some (fresh default_start node)
new_snowflake (at t) node now =
    if ltb_ℤ (pos now) t then none else some (fresh (to_snowflake_time t) node)

-- What To4 gives for an IPv4 address.
pub record Ipv4 : Type 0 where
  pub a : ℕ
  pub b : ℕ
  pub c : ℕ
  pub d : ℕ

unfoldable pub is_private_ipv4 : Option Ipv4 → Bool
is_private_ipv4 none = false
is_private_ipv4 (some ip) =
    ip.a == 10 || (ip.a == 172 && (leb 16 ip.b && ltb ip.b 32)) || (ip.a == 192 && ip.b == 168)

-- `none` is ErrInvalidIPv4; the argument is the result of To4.
unfoldable pub ip_to_uint16 : Option Ipv4 → Option ℕ
ip_to_uint16 none = none
ip_to_uint16 (some ip) = some ((ip.c * 2 ^ 8 + ip.d) % 2 ^ 16)

-- One of the machine's addresses: an IPNet or not, a loopback or not, and what To4 gives.
pub record Address : Type 0 where
  pub is_net : Bool
  pub is_loopback : Bool
  pub to4 : Option Ipv4

-- The loop of localIPv4; `none` is its error.
unfoldable pub local_ipv4 : List Address → Option Ipv4
unfolding is_private_ipv4
local_ipv4 [] = none
local_ipv4 (x ∷ xs) =
    if x.is_net && (if x.is_loopback then false else is_private_ipv4 x.to4)
    then x.to4
    else local_ipv4 xs

unfoldable pub local_ip_to_uint16 : List Address → Option ℕ
unfolding local_ipv4 ip_to_uint16
local_ip_to_uint16 xs = elim (local_ipv4 xs) [ none ↦ none | some ip ↦ ip_to_uint16 (some ip) ]

-- The fields keep to their bits.
pub record IsValid (s : Snowflake) : Type 0 where
  pub sequence_fits : s.sequence < 2 ^ sequence_bit
  pub node_fits : s.node < 2 ^ node_bit
