-- ===== src/Worker/Budget.antt =====
-- How often a task that fails is sent again.
use gkit.Prelude.{ℕ, suc, ◌≡◌, ◌⊎◌, ◌≢◌, [], ◌∷◌}
use gkit.Prelude.Int.{ℤ, pos, ◌-ℤ◌}
use gkit.Prelude.Map.{String}
use gkit.Worker.Signature.{Signature, fields, on_error}
use gkit.Worker.Calls.{publish, Log, failed_with, Env}
use gkit.Worker.Process.{conclude}
use gkit.Worker.Permitted.{id_of, All}

-- Whether a signature was published.
unfoldable pub Sent : Signature → Log → Type 0
Sent t [] = ⊥
Sent t (publish u ∷ log) = (t ≡ u) ⊎ Sent t log
Sent t (_ ∷ log) = Sent t log

abbrev pub budget : Signature → ℤ
budget s = (fields s).retry_count

-- A retry of `s`: the same task with the same callbacks on error, and one retry less.
abbrev pub IsRetry : Signature → Signature → Type 0
IsRetry s t = (budget t ≡ budget s -ℤ pos 1) × (id_of t ≡ id_of s) × (on_error t ≡ on_error s)

-- All that was published since `log` is a retry of `s`, or passes `Other`.
abbrev Since : (Signature → Type 0) → Log → Log → Type 0
Since P old log = (t : Signature) → Sent t log → Sent t old ⊎ P t

-- No callback on error has the identifier of the task.
abbrev pub IsApart : Signature → Type 0
IsApart s = All (λ j. j ≢ id_of s) (on_error s)

abbrev Foreign : Signature → Signature → Type 0
Foreign s t = id_of t ≢ id_of s

-- A signature with `n` retries of it: each is the same task, sent by a failing run of the one before
-- and taken from the queue.
pub data Retries (env : Env) : ℕ → Signature → Type 0 where
  stop : (s : Signature) → Retries env 0 s
  again :
      (n : ℕ) (s t : Signature) (e : String) (log : Log)
      → Sent t (conclude env s (failed_with e) log).1
      → ¬ Sent t log
      → id_of t ≡ id_of s
      → Retries env n t
      → Retries env (suc n) s
