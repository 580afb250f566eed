-- ===== src/Pool/Steps.antt =====
-- Goroutines on one list pool: the critical sections of container/pool/list.go, and the clients that
-- hold, make and give back resources. Sections that leave the pool as it was are left out.
-- New is called once, before.
use gkit.Prelude.{ℕ, suc, ◌+◌, ◌≡◌, Bool, true, Option, none, some, List, [], ◌∷◌, ◌++◌}
use gkit.Pool.{
  Config, Pool, fresh, stale, reserved, take, reserve, release, reload, empty_pool, set_new, put,
  clean_expired, shutdown,
}

-- The pool with the resources that clients hold, those that a Get is about to shut down, how many
-- are being made, those that have been shut down, and how many places were ever taken for a resource.
-- Resources are numbered as they are made.
pub record World : Type 0 where
  pub pool : Pool
  pub out : List ℕ
  pub expiring : List ℕ
  pub creating : ℕ
  pub shut : List ℕ
  pub next : ℕ
  pub asked : ℕ

abbrev pub of_option : Option ℕ → List ℕ
of_option none = []
of_option (some s) = s ∷ []

-- A new pool that has been given the function that makes resources.
unfoldable pub start : Config → World
unfolding set_new
start conf = record {
  pool = set_new true (empty_pool conf);
  out = [];
  expiring = [];
  creating = 0;
  shut = [];
  next = 0;
  asked = 0;
}

pub data Step : World → World → Type 0 where
  takes_fresh :
      (left now s : ℕ) (w : World)
      → (take left now w.pool).1 ≡ fresh s
      → Step w (record w { pool = (take left now w.pool).0; out = s ∷ w.out })
  takes_stale :
      (left now s : ℕ) (w : World)
      → (take left now w.pool).1 ≡ stale s
      → Step w (record w { pool = (take left now w.pool).0; expiring = s ∷ w.expiring })
  closes_stale :
      (xs ys : List ℕ) (s : ℕ) (w : World)
      → w.expiring ≡ xs ++ s ∷ ys
      → Step w (record w { pool = release w.pool; expiring = xs ++ ys; shut = s ∷ w.shut })
  reserves :
      (w : World)
      → (reserve w.pool).1 ≡ reserved
      → Step w
          (record w { pool = (reserve w.pool).0; creating = w.creating + 1; asked = w.asked + 1 })
  makes :
      (n : ℕ) (w : World)
      → w.creating ≡ suc n
      → Step w (record w { creating = n; out = w.next ∷ w.out; next = w.next + 1 })
  makes_none :
      (n : ℕ) (w : World)
      → w.creating ≡ suc n
      → Step w (record w { pool = release w.pool; creating = n })
  puts :
      (now : ℕ) (xs ys : List ℕ) (s : ℕ) (force_close : Bool) (w : World)
      → w.out ≡ xs ++ s ∷ ys
      → Step w (record w {
        pool = (put now s force_close w.pool).0;
        out = xs ++ ys;
        shut = of_option (put now s force_close w.pool).1 ++ w.shut;
      })
  cleans :
      (clock : ℕ → ℕ) (w : World)
      → Step w (record w {
        pool = (clean_expired clock w.pool).0;
        shut = (clean_expired clock w.pool).1 ++ w.shut;
      })
  shuts :
      (gone : List ℕ) (w : World)
      → (shutdown w.pool).1 ≡ some gone
      → Step w (record w { pool = (shutdown w.pool).0; shut = gone ++ w.shut })
  reloads :
      (os : List (Config → Config)) (w : World) → Step w (record w { pool = reload os w.pool })

pub data Reach (w : World) : World → Type 0 where
  here : Reach w w
  go : {u v : World} → Reach w u → Step u v → Reach w v
