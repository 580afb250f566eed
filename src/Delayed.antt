-- ===== src/Delayed.antt =====
-- delayed: the delayed tasks of delayed.go (a heap in which a node has four children) and do.go (the
-- dispatcher). ExecTime is a number that a task keeps; a time below 0, which AddDelayed refuses like
-- 0, is 0. The index that siftupDelayed returns is left out, since no caller reads it.
pub mod Slots
pub mod Order
pub mod Up
pub mod Down
pub mod Queue
pub mod Removing
pub mod Clients
pub mod Drain
pub mod Steps
pub mod Kept
mod Tests
use gkit.Prelude.{
  ℕ, zero, suc, ◌+◌, ◌-◌, ◌*◌, ◌/◌, ◌≡◌, Bool, true, false, not, ◌&&◌, ◌||◌, Option, none, some,
  List, [], ◌∷◌, ◌++◌, length, get_or, set, take, ltb, leb, ◌==◌, if◌then◌else◌,
}

pub record Task : Type 0 where
  pub exec_time : ℕ
  pub id : ℕ

abbrev pub bad_delayed : Task
bad_delayed = record { exec_time = 0; id = 0 }

-- `d[i]`, where every caller has seen that `i` is in range.
abbrev pub slot : List Task → ℕ → Task
slot d i = get_or d i bad_delayed

-- `d[i].ExecTime()`
abbrev pub when : List Task → ℕ → ℕ
when d i = (slot d i).exec_time

abbrev pub parent : ℕ → ℕ
parent c = (c - 1) / 4

-- The loop of siftupDelayed and the write after it, for at most `k` passes.
unfoldable pub up_loop : ℕ → List Task → Task → ℕ → List Task
up_loop zero d tmp i = set d i tmp
up_loop (suc k) d tmp i =
    let rest = up_loop k (set d i (slot d (parent i))) tmp (parent i) in
    if i == 0
    then set d i tmp
    else if leb (when d (parent i)) tmp.exec_time
    then set d i tmp
    else rest

unfoldable pub siftup : List Task → ℕ → List Task
unfolding up_loop
siftup d i = if leb (length d) i || (when d i == 0) then d else up_loop i d (slot d i) i

-- `c` or the slot after it, if that is inside and earlier.
unfoldable pub earlier : List Task → ℕ → ℕ
earlier d c = if ltb (c + 1) (length d) && ltb (when d (c + 1)) (when d c) then c + 1 else c

-- The child of `i` that the loop of siftdownDelayed compares.
unfoldable pub least_child : List Task → ℕ → ℕ
unfolding earlier
least_child d i =
    let c = earlier d (i * 4 + 1) in
    let c3 = earlier d (i * 4 + 3) in
    if ltb (i * 4 + 3) (length d) && ltb (when d c3) (when d c) then c3 else c

-- The loop of siftdownDelayed and the write after it, for at most `k` passes.
unfoldable pub down_loop : ℕ → List Task → Task → ℕ → List Task
unfolding least_child
down_loop zero d tmp i = set d i tmp
down_loop (suc k) d tmp i =
    let c = least_child d i in
    let rest = down_loop k (set d i (slot d c)) tmp c in
    if leb (length d) (i * 4 + 1)
    then set d i tmp
    else if leb tmp.exec_time (when d c)
    then set d i tmp
    else rest

unfoldable pub siftdown : List Task → ℕ → List Task
unfolding down_loop
siftdown d i =
    if leb (length d) i || (when d i == 0) then d else down_loop (length d) d (slot d i) i

pub record Dispatcher : Type 0 where
  pub delays : List Task
  pub is_close : Bool

pub data CloseError : Type 0 where
  repeat_shutdown : CloseError

-- AddDelayed from its lock on.
unfoldable pub add_locked : Task → Dispatcher → Dispatcher
unfolding siftup
add_locked t d =
    if d.is_close then d else record d { delays = siftup (d.delays ++ t ∷ []) (length d.delays) }

unfoldable pub add_delayed : Task → Dispatcher → Dispatcher
unfolding add_locked
add_delayed t d = if t.exec_time == 0 then d else if d.is_close then d else add_locked t d

-- The last task takes the place of the task in slot `i`, and the list is cut.
unfoldable pub cut : List Task → ℕ → List Task
cut d i = let last = length d - 1 in take last (if i == last then d else set d i (slot d last))

-- delDelayed; `none` is BadDelayed, here and below.
unfoldable pub del_delayed : ℕ → Dispatcher → Dispatcher × Option Task
unfolding cut siftup siftdown
del_delayed i d =
    let e = cut d.delays i in
    if leb (length d.delays) i then (d, none) else (
      record d { delays = if i == length d.delays - 1 then e else siftdown (siftup e i) i },
      some (slot d.delays i),
    )

-- The end of delDelayedTop and of popIfReady.
unfoldable pub cut_top : List Task → List Task
unfolding cut siftdown
cut_top d = if length d - 1 == 0 then cut d 0 else siftdown (cut d 0) 0

unfoldable pub del_delayed_top : Dispatcher → Dispatcher × Option Task
unfolding cut_top
del_delayed_top d =
    if length d.delays == 0
    then (d, none)
    else (record d { delays = cut_top d.delays }, some (slot d.delays 0))

unfoldable pub get_top_delayed : Dispatcher → Option Task
get_top_delayed d = if length d.delays == 0 then none else some (slot d.delays 0)

unfoldable pub pop_if_ready : ℕ → Dispatcher → Dispatcher × Option Task
unfolding cut_top
pop_if_ready now d =
    if length d.delays == 0
    then (d, none)
    else if ltb now (when d.delays 0)
    then (d, none)
    else (record d { delays = cut_top d.delays }, some (slot d.delays 0))

-- Close up to its signal to the sentinel; the error is `none` where there is none.
unfoldable pub close : Dispatcher → Dispatcher × Option CloseError
close d = if d.is_close then (d, some repeat_shutdown) else (record d { is_close = true }, none)

-- What a client may do while the sentinel does not hold the lock.
pub data Client : Type 0 where
  adds : Task → Client
  closes : Client

-- With the tasks that it had accepted.
unfoldable pub act : Client → Dispatcher → Dispatcher × List Task
unfolding add_delayed close
act (adds t) d =
    (add_delayed t d, if t.exec_time == 0 then [] else if d.is_close then [] else t ∷ [])
act closes d = ((close d).0, [])

unfoldable pub act_all : List Client → Dispatcher → Dispatcher × List Task
unfolding act
act_all [] d = (d, [])
act_all (c ∷ cs) d = let (d', ts) = act c d in let (last, us) = act_all cs d' in (last, ts ++ us)

-- What clients do after the first pass of the loop, and after the later ones.
abbrev pub first : List (List Client) → List Client
first [] = []
first (cs ∷ css) = cs

abbrev pub later : List (List Client) → List (List Client)
later [] = []
later (cs ∷ css) = css

abbrev pub actions : List (List Client) → ℕ
actions [] = 0
actions (cs ∷ css) = length cs + actions css

-- The loop of the sentinel at a tick, for at most `k` passes: what is left, and the tasks in the order
-- in which they are handed to the pool, each with those that clients added while it was handed on,
-- when the lock is free and the pool may block.
unfoldable pub drain_loop :
    ℕ → ℕ → List (List Client) → Dispatcher → Dispatcher × List (Task × List Task)
unfolding pop_if_ready act_all
drain_loop zero now css d = (d, [])
drain_loop (suc k) now css d =
    let (rest, top) = pop_if_ready now d in
    let (rest', added) = act_all (first css) rest in
    let (last, passes) = drain_loop k now (later css) rest' in
    elim top [ none ↦ (rest, []) | some t ↦ (last, (t, added) ∷ passes) ]

unfoldable pub drain : ℕ → List (List Client) → Dispatcher → Dispatcher × List (Task × List Task)
unfolding drain_loop
drain now css d = drain_loop (length d.delays + actions css + 1) now css d

-- What the sentinel does to the tasks when it is told to close.
unfoldable pub clear : Dispatcher → Dispatcher
clear d = record d { delays = [] }
