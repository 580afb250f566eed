-- ===== src/Group/Tests.antt =====
-- Runs of the lazy group of container/group.
use gkit.Prelude.{◌≡◌, refl, none, some, []}
use gkit.Prelude.Map.{lookup, put}
use gkit.Group.{Group, get_shared, get_create, create, reset, clear, new_group}
use gkit.Group.Steps.{World, gets, resets, here, go}
use gkit.Group.Once.{IsValid, begin, reachable_once, gets_agree}

abbrev fresh : Group
fresh = record { f = 7; objs = []; made = 0 }

-- Two keys, then the first once more.
unfoldable two_keys : Group
unfolding get_create create put lookup
two_keys = (get_create "user" (get_create "avatar" (get_create "user" fresh).0).0).0

made_twice : two_keys.made ≡ 2
unfolding two_keys get_create create put lookup
made_twice = refl

first_object : get_shared "user" two_keys ≡ some (record { by = 7; serial = 0 })
unfolding two_keys get_shared get_create create put lookup
first_object = refl

emptied : get_shared "user" (clear two_keys) ≡ none
unfolding get_shared clear lookup
emptied = refl

made_anew : (get_create "user" (clear two_keys)).1 ≡ record { by = 7; serial = 2 }
unfolding two_keys get_create create clear put lookup
made_anew = refl

no_function : reset none fresh ≡ none
unfolding reset
no_function = refl

-- One key, and then a new function.
abbrev one : World
one = record (begin fresh) { group = (get_create "user" fresh).0 }

abbrev renewed : World
renewed = record { group = record one.group { f = 8; objs = [] }; epoch = 1; base = one.group.made }

renew : reset (some 8) one.group ≡ some renewed.group
unfolding reset
renew = refl

fresh_new : new_group (some 7) ≡ some fresh
unfolding new_group
fresh_new = refl

abbrev last : World
last = record renewed { group = (get_create "avatar" renewed.group).0 }

reachable_once_example : IsValid last
reachable_once_example = reachable_once 7 fresh last fresh_new (
    go (go (go here (gets "user" (begin fresh))) (resets 8 renewed.group one renew))
      (gets "avatar" renewed))

gets_agree_example :
    (get_shared "user" (get_create "avatar" one.group).0 ≡ some (get_create "user" fresh).1)
    × (get_create "user" (get_create "avatar" one.group).0
        ≡ ((get_create "avatar" one.group).0, (get_create "user" fresh).1))
gets_agree_example =
    gets_agree "user" (begin fresh) (record one { group = (get_create "avatar" one.group).0 })
      (go here (gets "avatar" one)) refl
