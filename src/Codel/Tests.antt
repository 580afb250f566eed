-- ===== src/Codel/Tests.antt =====
-- Runs of the CoDel queue.
use gkit.Prelude.{ℕ, ◌≡◌, refl, false, some, [], ◌∷◌, ◌++◌}
use gkit.Prelude.Int.{ℤ, pos}
use gkit.Codel.{Packet, Queue, default_config, observe, judge, pop}
use gkit.Codel.Judge.{judge-observe}
use gkit.Codel.Verdicts.{Verdicts, of_option, pop_order}

abbrev pause : ℤ → ℤ → ℤ
pause i c = i

abbrev clock : ℕ → ℤ
clock n = pos 900

abbrev packet : ℕ → ℤ → Packet
packet n t = record { ch = n; ts = t }

-- Two packets have waited too long, the third has not.
abbrev waiting : Queue
waiting = record {
  dropping = false;
  packets = packet 1 (pos 100) ∷ packet 2 (pos 200) ∷ packet 3 (pos 895) ∷ packet 4 (pos 896) ∷ [];
  conf = default_config;
  count = pos 0;
  fa_time = pos 300;
  drop_next = pos 0;
}

third_admitted : (pop pause clock waiting).1 ≡ some (packet 3 (pos 895))
unfolding pop
third_admitted = refl

judge-observe_example :
    (judge pause (pos 900) (packet 1 (pos 100)) waiting).0
    ≡ (observe (pos 900) (packet 1 (pos 100)) waiting).0
judge-observe_example = judge-observe pause (pos 900) (packet 1 (pos 100)) waiting

pop_order_example :
    let (dropped, admitted, end) = pop pause clock waiting in
    (waiting.packets ≡ dropped ++ (of_option admitted ++ end.packets))
    × Verdicts pause clock 0 waiting.packets waiting dropped admitted
pop_order_example = pop_order pause clock waiting
