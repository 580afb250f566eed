-- ===== src/Pool.antt =====
-- container/pool: the list pool of list.go with the options and items of pool.go. Each critical
-- section of the mutex is a function of the state. The list of idle items stands from its front to
-- its back, a resource is its number, and a channel that is closed and made anew at each change is
-- the number of that change (`generation`). Times are nanoseconds, a reading of the clock an argument.
pub mod Steps
pub mod Sections
pub mod Conserved
pub mod Bounds
pub mod Waking
mod Tests
use gkit.Prelude.{
  ℕ, zero, suc, ◌+◌, ◌-◌, ◌%◌, ◌≡◌, Bool, true, false, not, ◌&&◌, ◌||◌, Option, none, some, List,
  [], ◌∷◌, ◌++◌, length, ltb, ◌==◌, if◌then◌else◌,
}
use gkit.Prelude.Int.{ℤ, pos, negsuc, ltb_ℤ, pos_part}

pub record Config : Type 0 where
  pub active : ℕ
  pub idle : ℕ
  pub idle_timeout : ℤ
  pub wait_timeout : ℤ
  pub wait : Bool

pub record Item : Type 0 where
  pub created_at : ℕ
  pub s : ℕ

pub record Pool : Type 0 where
  pub conf : Config
  pub active : ℕ
  pub closed : Bool
  pub idles : List Item
  pub generation : ℕ
  -- Whether there is a function that makes resources.
  pub has_new : Bool

pub data PoolError : Type 0 where
  new_func_is_null pool_exhausted pool_closed : PoolError

abbrev pub default_config : Config
default_config = record {
  active = 20;
  idle = 10;
  idle_timeout = pos 90000000000;
  wait_timeout = pos 0;
  wait = false;
}

unfoldable pub expire : ℤ → ℕ → Item → Bool
expire timeout now it =
    if ltb_ℤ (pos 0) timeout then ltb (it.created_at + pos_part timeout) now else false

-- The subtraction of `n` by an addition to the uint64 counter.
unfoldable pub minus : ℕ → ℕ → ℕ
minus a n = if ltb a n then a + 18446744073709551616 - n else a - n

unfoldable pub notify : Pool → Pool
notify p = record p { generation = p.generation + 1 }

-- releaseLocked.
unfoldable pub release : Pool → Pool
unfolding notify minus
release p = notify (record p { active = minus p.active 1 })

unfoldable pub set_active : ℕ → Config → Config
set_active n conf = record conf { active = n }

unfoldable pub set_idle : ℕ → Config → Config
set_idle n conf = record conf { idle = n }

unfoldable pub set_idle_timeout : ℤ → Config → Config
set_idle_timeout d conf = record conf { idle_timeout = d }

unfoldable pub set_wait : Bool → ℤ → Config → Config
set_wait wait d conf = record conf { wait = wait; wait_timeout = d }

-- Options applied one after another.
unfoldable pub apply_options : List (Config → Config) → Config → Config
apply_options [] conf = conf
apply_options (o ∷ os) conf = apply_options os (o conf)

unfoldable pub reload : List (Config → Config) → Pool → Pool
unfolding notify apply_options
reload os p = notify (record p { conf = apply_options os p.conf })

abbrev pub empty_pool : Config → Pool
empty_pool conf = record {
  conf = conf;
  active = 0;
  closed = false;
  idles = [];
  generation = 0;
  has_new = false;
}

unfoldable pub new_list : List (Config → Config) → Pool
unfolding apply_options
new_list os = empty_pool (apply_options os default_config)

-- New, with whether the function is not nil.
unfoldable pub set_new : Bool → Pool → Pool
set_new has p = record p { has_new = has }

-- What a section of Get came to.
pub data Got : Type 0 where
  -- An item that has not expired: Get returns it.
  fresh : ℕ → Got
  -- An item that has: Get shuts it down and then takes the lock to release its place.
  stale : ℕ → Got
  -- A place for a new resource, which Get makes off the lock.
  reserved : Got
  -- Get waits for the next generation.
  waits : ℕ → Got
  failed : PoolError → Got

abbrev pub is_zero : ℤ → Bool
is_zero (pos zero) = true
is_zero (pos (suc n)) = false
is_zero (negsuc n) = false

-- The end of Get's loop, when no idle item is left.
unfoldable pub reserve : Pool → Pool × Got
reserve p =
    if p.closed
    then (p, failed pool_closed)
    else if (p.conf.active == 0) || ltb p.active p.conf.active
    then if p.has_new
      then (record p { active = (p.active + 1) % 18446744073709551616 }, reserved)
      else (p, failed new_func_is_null)
    else if is_zero p.conf.wait_timeout && not p.conf.wait
    then (p, failed pool_exhausted)
    else (p, waits p.generation)

-- The item that a section took.
abbrev pub taken : Got → Option ℕ
taken (fresh s) = some s
taken (stale s) = some s
taken reserved = none
taken (waits n) = none
taken (failed e) = none

-- A section of Get's loop, where `left` is how many items the inner loop has left of those that were
-- idle when it began: the item at the front, or the end of the loop.
unfoldable pub take_from : List Item → ℕ → ℕ → Pool → Pool × Got
unfolding expire reserve
take_from [] left now p = reserve p
take_from (it ∷ its) zero now p = reserve p
take_from (it ∷ its) (suc left) now p =
    (record p { idles = its }, if expire p.conf.idle_timeout now it then stale it.s else fresh it.s)

unfoldable pub take : ℕ → ℕ → Pool → Pool × Got
unfolding take_from
take left now p = take_from p.idles left now p

-- A pass of Get's outer loop, from its start.
unfoldable pub get_round : ℕ → Pool → Pool × Got
unfolding take
get_round now p = take (length p.idles) now p

-- Get from its start, which looks whether the pool is closed first.
unfoldable pub get_start : ℕ → Pool → Pool × Got
unfolding get_round
get_start now p = if p.closed then (p, failed pool_closed) else get_round now p

-- The list without its back, and the back.
unfoldable pub split_back : Item → List Item → List Item × ℕ
split_back it [] = ([], it.s)
split_back it (j ∷ its) = let (front, back) = split_back j its in (it ∷ front, back)

-- Put; the second component is the resource that it shuts down after the lock.
unfoldable pub put : ℕ → ℕ → Bool → Pool → Pool × Option ℕ
unfolding split_back notify release
put now s force_close p =
    let it : Item = record { created_at = now; s = s } in
    let (front, back) = split_back it p.idles in
    if p.closed || force_close
    then (release p, some s)
    else if ltb p.conf.idle (suc (length p.idles))
    then (release (record p { idles = front }), some back)
    else (notify (record p { idles = it ∷ p.idles }), none)

-- The back of the list once what is behind it has been looked at: it goes if nothing is left behind
-- it and it has expired. Each item is looked at with its own reading of the clock, the first one
-- with number 0.
unfoldable pub clean_onto : ℤ → (ℕ → ℕ) → Item → List Item × List ℕ → List Item × List ℕ
unfolding expire
clean_onto timeout clock it ([], gone) =
    if expire timeout (clock (length gone)) it then ([], gone ++ it.s ∷ []) else (it ∷ [], gone)
clean_onto timeout clock it (j ∷ js, gone) = (it ∷ j ∷ js, gone)

-- The loop of cleanExpired: what stays of the list, and what is taken from its back, the back first.
unfoldable pub clean : ℤ → (ℕ → ℕ) → List Item → List Item × List ℕ
unfolding clean_onto
clean timeout clock [] = ([], [])
clean timeout clock (it ∷ its) = clean_onto timeout clock it (clean timeout clock its)

-- cleanExpired.
unfoldable pub clean_expired : (ℕ → ℕ) → Pool → Pool × List ℕ
unfolding clean notify minus
clean_expired clock p =
    let (kept, gone) = clean p.conf.idle_timeout clock p.idles in
    let p' = record p { idles = kept; active = minus p.active (length gone) } in
    if p.closed || not (ltb_ℤ (pos 0) p.conf.idle_timeout)
    then (p, [])
    else if length gone == 0
    then (record p { idles = kept }, [])
    else (notify p', gone)

abbrev pub resources : List Item → List ℕ
resources [] = []
resources (it ∷ its) = it.s ∷ resources its

-- Shutdown; `none` is ErrPoolClosed.
unfoldable pub shutdown : Pool → Pool × Option (List ℕ)
unfolding notify minus
shutdown p = if p.closed then (p, none) else (
  notify (record p { closed = true; active = minus p.active (length p.idles); idles = [] }),
  some (resources p.idles),
)
