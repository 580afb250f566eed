-- ===== src/Group/Once.antt =====
-- A lazy group makes one object for a key, and hands on that one until it is emptied.
use gkit.Prelude.{
  ℕ, ◌+◌, ◌≡◌, ◌≤◌, ◌<◌, refl, sym, ap, subst, ◌∙◌, none, some, [], length, arith, Bool-cases,
  Option-cases, ◌⊎◌, inl, inr,
}
use gkit.Prelude.Map.{Map, String, lookup, put, ◌=?◌, eq_iff, lookup-put, lookup-empty, length-put}
use mathlib.Core.Option.{some-injective}
use gkit.Group.{Object, Group, get_shared, create, get_create, reset, clear, new_group}
use gkit.Group.Steps.{World, Step, gets, resets, clears, Reach, here, go}

-- What a section of Get that writes leaves: the object stands under its key, and every other key is
-- as it was.
get_create-same :
    (k : String) (g : Group) (o : Object) → lookup k g.objs ≡ some o → get_create k g ≡ (g, o)
unfolding get_create
get_create-same k g o e = rw (get_create, e) refl

get_create-new : (k : String) (g : Group) → lookup k g.objs ≡ none → get_create k g ≡ create k g
unfolding get_create
get_create-new k g e = rw (get_create, e) refl

pub record IsValid (w : World) : Type 0 where
  -- Each object was made by the present function, after the group was last emptied.
  pub present :
      (k : String) (o : Object)
      → lookup k w.group.objs ≡ some o
      → (o.by ≡ w.group.f) × (w.base ≤ o.serial) × (o.serial < w.group.made)
  -- No two keys share an object.
  pub apart :
      (k j : String) (o p : Object)
      → lookup k w.group.objs ≡ some o
      → lookup j w.group.objs ≡ some p
      → o.serial ≡ p.serial
      → k ≡ j
  -- As many calls as keys.
  pub counted : w.group.made ≡ w.base + length w.group.objs

new_group-IsValid :
    (f made epoch : ℕ)
    → IsValid
        (record { group = record { f = f; objs = []; made = made }; epoch = epoch; base = made })
new_group-IsValid f made epoch = record {
  present = λ k o h. absurd (ground (arith, h, lookup-empty {V = Object} k));
  apart = λ k j o p h i s. absurd (ground (arith, h, lookup-empty {V = Object} k));
  counted = omega arith;
}

-- Where an object stands after a write.
found :
    (k j : String) (new o : Object) (m : Map Object)
    → lookup j (put k new m) ≡ some o
    → ((k ≡ j) × (new ≡ o)) ⊎ (lookup j m ≡ some o)
found k j new o m h = elim (Bool-cases (k =? j)) [
  | inl same ↦ inl (
    ground (arith, eq_iff k j, same),
    some-injective new o (ground (arith, lookup-put k j new m, same, h)),
  )
  | inr other ↦ inr (ground (arith, lookup-put k j new m, other, h))
]

create-IsValid :
    (k : String) (w : World)
    → lookup k w.group.objs ≡ none
    → IsValid w
    → IsValid (record w { group = (create k w.group).0 })
unfolding create
create-IsValid k w e v =
    let new : Object = record { by = w.group.f; serial = w.group.made } in
    record {
      present = λ j o h. elim (found k j new o w.group.objs h) [
        | inl (_, same) ↦ (
          sym (ap (λ (x : Object). x.by) same),
          omega (arith, v.counted, ap (λ (x : Object). x.serial) same),
          omega (arith, ap (λ (x : Object). x.serial) same),
        )
        | inr old ↦ let (by, from, to) = v.present j o old in (by, from, omega (arith, to))
      ];
      apart = λ i j o p h l s. elim (found k i new o w.group.objs h) [
        | inl (at_i, o_new) ↦ elim (found k j new p w.group.objs l) [
          | inl (at_j, _) ↦ sym at_i ∙ at_j
          | inr old ↦
              absurd (omega (arith, s, ap (λ (x : Object). x.serial) o_new, (v.present j p old).2))
        ]
        | inr o_old ↦ elim (found k j new p w.group.objs l) [
          | inl (_, p_new) ↦
              absurd
                (omega (arith, s, ap (λ (x : Object). x.serial) p_new, (v.present i o o_old).2))
          | inr p_old ↦ v.apart i j o p o_old p_old s
        ]
      ];
      counted = ground (arith, length-put k new w.group.objs, e, v.counted);
    }

Step-IsValid : {w v : World} → Step w v → IsValid w → IsValid v
unfolding reset clear
Step-IsValid (gets k w) v = elim (Option-cases (lookup k w.group.objs)) [
  | inl e ↦
      subst (λ r. IsValid (record w { group = r.0 })) (sym (get_create-new k w.group e))
        (create-IsValid k w e v)
  | inr (o, e) ↦
      subst (λ r. IsValid (record w { group = r.0 })) (sym (get_create-same k w.group o e)) v
]
Step-IsValid (resets f g w e) v =
    subst (λ h. IsValid (record { group = h; epoch = w.epoch + 1; base = w.group.made }))
      (some-injective _ _ e) (new_group-IsValid f w.group.made (w.epoch + 1))
Step-IsValid (clears w) v = new_group-IsValid w.group.f w.group.made (w.epoch + 1)

abbrev pub begin : Group → World
begin g = record { group = g; epoch = 0; base = g.made }

-- Where each call of a function that makes objects gives a new object: whatever sections goroutines
-- run on a new group, every object in it was made by the function that it has now, no two keys
-- share one, and since the group was last emptied the function was called once for each key and
-- no more.
pub reachable_once :
    (f : ℕ) (g : Group) (w : World) → new_group (some f) ≡ some g → Reach (begin g) w → IsValid w
unfolding new_group
reachable_once f g w e here =
    subst (λ h. IsValid (begin h)) (some-injective _ _ e) (new_group-IsValid f 0 0)
reachable_once f g w e (go r h) = Step-IsValid h (reachable_once f g _ e r)

Step-epoch : {w v : World} → Step w v → w.epoch ≤ v.epoch
Step-epoch (gets k w) = omega arith
Step-epoch (resets f g w e) = omega arith
Step-epoch (clears w) = omega arith

Reach-epoch : {w v : World} → Reach w v → w.epoch ≤ v.epoch
Reach-epoch here = omega arith
Reach-epoch (go r h) = omega (arith, Reach-epoch r, Step-epoch h)

get_create-keeps :
    (k j : String) (g : Group) (o : Object)
    → lookup k g.objs ≡ some o
    → lookup k (get_create j g).0.objs ≡ some o
unfolding get_create create
get_create-keeps k j g o e = elim (Option-cases (lookup j g.objs)) [
  | inl new ↦
      let obj : Object = record { by = g.f; serial = g.made } in
      rw (get_create, new) (ground (arith, lookup-put j k obj g.objs, eq_iff j k, new, e))
  | inr (p, old) ↦ rw (get_create, old) e
]

Step-keeps :
    {w v : World} (k : String) (o : Object)
    → Step w v
    → v.epoch ≡ w.epoch
    → lookup k w.group.objs ≡ some o
    → lookup k v.group.objs ≡ some o
Step-keeps k o (gets j w) same e = get_create-keeps k j w.group o e
Step-keeps k o (resets f g w h) same e = absurd (omega (arith, same))
Step-keeps k o (clears w) same e = absurd (omega (arith, same))

Reach-keeps :
    {w v : World} (k : String) (o : Object)
    → Reach w v
    → v.epoch ≡ w.epoch
    → lookup k w.group.objs ≡ some o
    → lookup k v.group.objs ≡ some o
Reach-keeps k o here same e = e
Reach-keeps k o (go r h) same e =
    let lo = Reach-epoch r in
    let hi = Step-epoch h in
    Step-keeps k o h (omega (arith, same, lo, hi))
      (Reach-keeps k o r (omega (arith, same, lo, hi)) e)

get_create-stands :
    (k : String) (g : Group) → lookup k (get_create k g).0.objs ≡ some (get_create k g).1
unfolding get_create create
get_create-stands k g = elim (Option-cases (lookup k g.objs)) [
  | inl new ↦
      let obj : Object = record { by = g.f; serial = g.made } in
      rw (get_create, new) (ground (arith, lookup-put k k obj g.objs, eq_iff k k))
  | inr (o, old) ↦ rw (get_create, old) old
]

-- After a Get has gone through the write lock, until the group is emptied again, whatever sections
-- run, every Get of the key gives the same object, under the read lock and under the write lock,
-- which then changes nothing.
pub gets_agree :
    (k : String) (w v : World)
    → Reach (record w { group = (get_create k w.group).0 }) v
    → v.epoch ≡ w.epoch
    → (get_shared k v.group ≡ some (get_create k w.group).1)
      × (get_create k v.group ≡ (v.group, (get_create k w.group).1))
unfolding get_shared
gets_agree k w v r same =
    let o = (get_create k w.group).1 in
    let e = Reach-keeps k o r same (get_create-stands k w.group) in
    (e, get_create-same k v.group o e)
