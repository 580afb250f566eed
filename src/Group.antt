-- ===== src/Group.antt =====
-- container/group: the lazy group of group.go. Each section under the lock is a function of the
-- state. A function that makes objects is its number, and an object is told by the function that
-- made it and by how many objects any function had made before: each call is taken to give a new one.
pub mod Steps
pub mod Once
mod Tests
use gkit.Prelude.{ℕ, ◌+◌, Option, none, some, []}
use gkit.Prelude.Map.{Map, String, lookup, put}

pub record Object : Type 0 where
  pub by : ℕ
  pub serial : ℕ

pub record Group : Type 0 where
  pub f : ℕ
  pub objs : Map Object
  -- How many calls of such functions there have been.
  pub made : ℕ

-- Get under the read lock.
unfoldable pub get_shared : String → Group → Option Object
get_shared k g = lookup k g.objs

-- `obj := g.f()` and `g.objs[key] = obj`.
unfoldable pub create : String → Group → Group × Object
create k g =
    let obj : Object = record { by = g.f; serial = g.made } in
    (record g { objs = put k obj g.objs; made = g.made + 1 }, obj)

-- Get under the write lock, where the key is looked up again.
unfoldable pub get_create : String → Group → Group × Object
unfolding create
get_create k g = elim (lookup k g.objs) [ none ↦ create k g | some obj ↦ (g, obj) ]

-- ReSet; `none` is a panic.
unfoldable pub reset : Option ℕ → Group → Option Group
reset none g = none
reset (some f) g = some (record g { f = f; objs = [] })

unfoldable pub clear : Group → Group
clear g = record g { objs = [] }

-- NewGroup, likewise.
unfoldable pub new_group : Option ℕ → Option Group
new_group none = none
new_group (some f) = some (record { f = f; objs = []; made = 0 })
