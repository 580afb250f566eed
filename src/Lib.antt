-- ===== src/Lib.antt =====
-- gkit is a Go library of components for services. This library models some of them and proves
-- what makes them correct. The components do not call one another: each has its own modules.
--
-- Prelude: names of the libraries, tests on numbers, lists, integers (Prelude/Int), the bits of
--   words (Prelude/Bits) and Go's map with string keys (Prelude/Map).
--
-- LocalCache: cache/local_cache, the key-value cache with expiry.
--   LocalCache has the state (`cache` of cache.go, the entries of Iterator.go) and Set, Get,
--   GetWithExpire, Add, Replace and Delete; LocalCache/Value the values and the arithmetic on them;
--   LocalCache/Typed Increment, Decrement and their typed forms; LocalCache/Sweep DeleteExpire,
--   Iterator, Flush, Shutdown and the loop of sentinel.go; LocalCache/Persist Save and Load. A
--   method's name is kept in snake case; what runs under the caller's lock (`set`, `get`, `delete`)
--   has the suffix `_locked`, and expireEvictUnlock is `evict`. Each critical section is one
--   function of the state, Get being two (`get_read`, `get_recheck`). Readings of the clock are
--   arguments, or a numbered sequence where a loop reads it again and again. A call of the capture
--   callback is an event of the result. Floats, other values and gob are parameters; of a
--   value gob may carry over a part only.
--   The proofs are in View (what a client sees, and the operations on one key against it), Arith
--   (counters), Sweeping (sweeps and Iterator), Restore (Save and Load) and Turns (goroutines).
--
-- Chord: distributed/backend/durable_chord.go, the durable chord: a group of tasks and a callback that
--   is published when all have succeeded. Delivery has the record, Member, Receipt and Callback the
--   transitions, named as in the code: ClaimChordMember is `claim_member`, ApplyChordMemberTerminal
--   `apply_member_terminal`; a lease, an error and the record after the call are one result. Steps
--   has the transitions that a backend commits (updateChordDelivery of backend_db/durable_chord.go).
--   Times are nanoseconds with Go's zero time as 0; states outside the declared constants, which only
--   a corrupt record has, are not modelled; JSON is a parameter. Versions and
--   attempts are unbounded, where the code has int64 and int, and the overflow of a retention of
--   more than 292 years in time.Duration is not modelled. Valid has the invariant; Keeping,
--   Reporting and Safety that it is kept; Growing and Fencing have leases and receipts over runs;
--   Final the end of a delivery, Progress that it is not held up.
--
-- Codel: container/queue/codel/queue.go. judge is `observe` and then `judge_dropping` or
--   `judge_calm`; Pop's loop over the packets that wait is `pop_loop`, which the number of packets
--   ends. Times are signed milliseconds without overflow; the quotient by the square root is a
--   parameter. Judge and Verdicts have the proofs. The wait in Push and Stat are not modelled.
--
-- Delayed: delayed, tasks with a time (delayed.go, do.go). siftupDelayed is `siftup` with the loop
--   `up_loop`, siftdownDelayed `siftdown` with `down_loop`; the loops make at most as many passes as
--   their fuel, `i` and the length of the list. AddDelayed is `add_delayed`, from its lock on
--   `add_locked`; the sentinel's loop at a tick is `drain`, with what clients do (`act`)
--   while it hands a task on and the lock is free; it takes at most as many passes as tasks are there
--   or added, and one. Slots, Order, Up and Down have the heap,
--   Queue, Removing, Clients and Drain the operations, Steps the goroutines and Kept what they keep. The
--   constructor, the ticker, signals and the pool that runs the tasks are not modelled.
--
-- Generator: generator/snowflake.go. NextID is `next_id`, its choice of time and sequence `choose`;
--   toID is `to_id`. elapsedTime is a natural number, since it starts at 0 and grows; the overflow
--   of int64 is out of its reach and not modelled. Proofs: Ids (an identifier's parts), Order
--   (identifiers ascend), Wake (the sleep).
--
-- Group: container/group/group.go, the lazy group. Get's section under the read lock is `get_shared`,
--   that under the write lock `get_create`; a panic is `none`. Each call of a
--   function that makes objects is taken to give a new object. Steps has goroutines on one group, Once
--   the proofs.
--
-- LeapArray: window/leap_array.go with array.go and bucket.go. A pointer to a bucket is its place
--   in the list of all buckets made; a bucket is never changed after compareAndSwap, `publish`, has
--   put it into a slot. One round of getBucketOfTime's loop is `attempt`, which gets what the
--   goroutine read and whether TryLock succeeds; the loop is `get_bucket_of_time`, by the rounds.
--   The builder is a parameter. Placed and Attempts have what rounds keep, Begin the new array, Alone
--   the loop of one goroutine. The ring of maps of window.go is not modelled.
--
-- Match: tools/match/match.go. deepMatch is `deep_match` with its loop `byte_loop`, deepMatchRune
--   `deep_match_rune` with `rune_loop`. unicode/utf8 is a parameter. The fuel of `match` is twice
--   the lengths of the texts and four: each call or pass of a loop uses one, and of two in a row one
--   shortens a text. Wild has the meaning of patterns, Runes the runes of a text, Correct and Literal
--   the proofs. Allowable is not modelled.
--
-- PageToken: page_token/token.go and, in Gcm, encrypt/aes/gcm.go. Texts are lists of bytes. The
--   parts of GetIndex are `parse_plain`, `parse_parts`, `time_error` and `index_of`, those of
--   ProcessPageTokens `limited`, `start_of`, `end_of` and `page_from`. The cipher and base64
--   (Crypto), package time and strconv (Texts) are parameters; the overflow of a time is not
--   modelled. Round has the proofs on tokens, Pages those on pages.
--
-- Pool: container/pool, the pool of resources (list.go, pool.go). Each critical section of the mutex
--   is a function: a section of Get's loops is `take`, which ends in `reserve`, Put is `put`,
--   releaseLocked `release`, cleanExpired `clean_expired`. A resource is a number; the channel that
--   notifyLocked closes and makes anew is a number that grows. The counter has the wrap of uint64.
--   Steps has the sections of goroutines and what clients hold, Sections what each section does to
--   the resources, Conserved and Bounds the invariants, Waking the waiting of Get. The wait itself,
--   with its context and timer, and the cleaner's goroutine are not modelled.
--
-- Retry: distributed/retry/fibonacci.go, FibonacciNext as `fibonacci_next` with its loop `next_loop`
--   on 64-bit ints; the fuel is `start` + 2, and the loop takes no more since the numbers grow. Next
--   has the proof. The closure of Fibonacci and Retry's sleep are not modelled.
--
-- Rolling: internal/stat, the rolling window of buckets (window.go, rolling_policy.go, reduce.go).
--   A bucket's `next` pointer is the next index, round the ring. RollingPolicy.add is `add_with`,
--   its resets `reset_passed` and `reset_loop`; what Reduce copies is `reduced`. A reading of the
--   clock is an argument in nanoseconds; float64 and its order are parameters. Ring has the ring as
--   a list from the oldest bucket to the newest, Window the proofs on `add`, Reading those on
--   Reduce; Extrema has Count, and Min with its proof.
--
-- Worker: distributed/worker.go, what a worker does with a task; it sends with SendTask of
--   distributed/service.go and delays a retry by FibonacciNext. Signature has the signature and the
--   metadata, Calls the calls of backend, controller, durable backend and handlers: an action is a
--   function of the log of these calls, and the answers (Env) are parameters that may depend on the
--   whole log. A handler's name is kept in snake case (handlerSucceeded is `handler_succeeded`); Durable
--   has recordDurableTerminal, Callbacks what is sent, Process the rest. An error of type error is its
--   text. Permitted says which tasks a run
--   may send, Keeping and Processing have what all actions keep, Runs, Chords, Delay and Budget the
--   proofs. A handler does not change the signature; the start of the worker and its signals are not modelled.
--
-- Not modelled: the copies of other projects (the structures under structure/, the cron parser), the
-- rest of the distributed task system, overload, the buffers; and what is input and output,
-- reflection or a wrapper of a third-party library.
pub mod Prelude
pub mod Chord
pub mod Codel
pub mod Delayed
pub mod Generator
pub mod Group
pub mod LeapArray
pub mod LocalCache
pub mod Match
pub mod PageToken
pub mod Pool
pub mod Retry
pub mod Rolling
pub mod Worker
