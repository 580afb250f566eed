-- ===== src/Pool/Tests.antt =====
-- Runs of the list pool of container/pool.
use gkit.Prelude.{◌≡◌, ◌<◌, refl, true, false, none, some, [], ◌∷◌, arith}
use gkit.Prelude.Int.{pos}
use gkit.Pool.{
  Config, Pool, fresh, stale, waits, failed, pool_exhausted, pool_closed, default_config, minus,
  release, reload, expire, reserve, take, take_from, get_round, get_start, put, split_back, clean,
  clean_onto, clean_expired, shutdown, notify, set_active, set_idle, set_idle_timeout, set_wait,
  apply_options, new_list, empty_pool,
}
use gkit.Pool.Steps.{World, puts, reserves, makes, Reach, here, go, start}
use gkit.Pool.Conserved.{IsValid, reachable_conserved}
use gkit.Pool.Bounds.{Steady, Within, limits_kept}
use gkit.Pool.Waking.{serves, put-serves, wakeup_not_lost}

-- Two resources, one of them idle, items that expire after 100, and Gets that wait.
abbrev small : Config
small = record { active = 2; idle = 1; idle_timeout = pos 100; wait_timeout = pos 0; wait = true }

abbrev two_idle : Pool
two_idle = record {
  conf = small;
  active = 2;
  closed = false;
  idles = record { created_at = 150; s = 1 } ∷ record { created_at = 40; s = 0 } ∷ [];
  generation = 5;
  has_new = true;
}

abbrev full : Pool
full = record two_idle { idles = [] }

takes_front : (get_round 200 two_idle).1 ≡ fresh 1
unfolding get_round take take_from expire
takes_front = refl

takes_expired : (get_round 251 two_idle).1 ≡ stale 1
unfolding get_round take take_from expire
takes_expired = refl

cleans_back : (clean_expired (λ _. 200) two_idle).1 ≡ 0 ∷ []
unfolding clean_expired clean clean_onto expire notify minus
cleans_back = refl

cleans_all_back_first : (clean_expired (λ _. 300) two_idle).1 ≡ 0 ∷ 1 ∷ []
unfolding clean_expired clean clean_onto expire notify minus
cleans_all_back_first = refl

cleaned_active : (clean_expired (λ _. 200) two_idle).0.active ≡ 1
unfolding clean_expired clean clean_onto expire notify minus
cleaned_active = refl

puts_out_the_back : (put 210 7 false two_idle).1 ≡ some 0
unfolding put split_back release notify minus
puts_out_the_back = refl

closes_forced : (put 210 7 true full).1 ≡ some 7
unfolding put split_back release notify minus
closes_forced = refl

waits_when_full : (get_start 200 full).1 ≡ waits 5
unfolding get_start get_round take take_from reserve
waits_when_full = refl

exhausted_without_wait :
    (get_start 200 (record full { conf = record small { wait = false } })).1 ≡ failed pool_exhausted
unfolding get_start get_round take take_from reserve
exhausted_without_wait = refl

closed_after_shutdown : (get_start 200 (shutdown two_idle).0).1 ≡ failed pool_closed
unfolding get_start shutdown notify minus
closed_after_shutdown = refl

shut_front_first : (shutdown two_idle).1 ≡ some (1 ∷ 0 ∷ [])
unfolding shutdown notify minus
shut_front_first = refl

shut_once : (shutdown (shutdown two_idle).0).1 ≡ none
unfolding shutdown notify minus
shut_once = refl

-- When the inner loop has no item left of those that were idle when it began, Get waits although
-- one is idle, where the pool is full.
waits_beside_idle : (take 0 200 two_idle).1 ≡ waits 5
unfolding take take_from reserve
waits_beside_idle = refl

-- Below 0 the counter wraps round.
wraps : minus 0 1 ≡ 18446744073709551615
unfolding minus
wraps = refl

-- The last of two options on one setting holds.
options_in_order :
    new_list (set_active 5 ∷ set_idle_timeout (pos 7) ∷ set_active 6 ∷ [])
    ≡ empty_pool (record default_config { active = 6; idle_timeout = pos 7 })
unfolding new_list apply_options set_active set_idle_timeout
options_in_order = refl

reload_keeps_others : (reload (set_idle 4 ∷ set_wait false (pos 3) ∷ []) two_idle).conf.active ≡ 2
unfolding reload notify apply_options set_idle set_wait
reload_keeps_others = refl

-- A resource is made and given back.
unfoldable asked : World
unfolding start
asked = record (start small) { pool = (reserve (start small).pool).0; creating = 1; asked = 1 }

abbrev made : World
made = record asked { creating = 0; out = 0 ∷ []; next = 1 }

abbrev given_back : World
given_back = record made { pool = (put 10 0 false made.pool).0; out = []; shut = [] }

unfoldable run : Reach (start small) given_back
unfolding reserve put split_back notify start asked
run =
    go (go (go here (reserves (start small) refl)) (makes 0 asked refl))
      (puts 10 [] [] 0 false made refl)

few : given_back.asked < 18446744073709551616
unfolding asked
few = omega arith

reachable_conserved_example : IsValid given_back
reachable_conserved_example = reachable_conserved small given_back run few

steady : Steady small run
unfolding Steady run reserve put split_back notify start asked
steady = (((refl, refl), refl), refl)

limits_kept_example : Within small given_back.pool
limits_kept_example = limits_kept small given_back run steady few

served_after_put : serves (get_round 300 (put 210 1 false full).0).1 ≡ true
served_after_put = put-serves 210 300 1 false full refl refl (omega arith) refl

abbrev busy : World
busy = record (start small) { pool = full; out = 0 ∷ []; creating = 1; next = 1; asked = 2 }

abbrev busier : World
busier = record busy { creating = 0; out = 1 ∷ 0 ∷ []; next = 2 }

full_waits : (get_round 200 full).1 ≡ waits 5
unfolding get_round take take_from reserve
full_waits = refl

wakeup_not_lost_example : (busier.pool ≡ busy.pool) × ((get_round 300 busier.pool).1 ≡ waits 5)
wakeup_not_lost_example =
    wakeup_not_lost busy busier 200 5 300 full_waits (go here (makes 0 busy refl)) refl
