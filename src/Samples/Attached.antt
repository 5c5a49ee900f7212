-- ===== src/Samples/Attached.antt =====
-- Instances for call trees from uprobes.
use rthas.Prelude.{ℕ, ◌≡◌, refl, arith, List, [], ◌∷◌}
use rthas.Uprobes.{Forest}
use rthas.Uprobes.Threads.{Hit, enters, exits, run, stack_in, completed_by}
use rthas.Uprobes.Calls.{finished, next, gone, Call, done_by_calls, run-calls_of_thread}

-- Function 0 calls 1, which returns, and 2, which does not.
abbrev calls : List Call
calls =
    record { id = 0; start = 0; inner = next 1 10 finished 30 (gone 2 35 finished); end = 50 } ∷ []

-- Thread 7 makes these calls, and thread 8 is within another meanwhile.
abbrev hits : List (ℕ × Hit)
hits =
    (7, enters 0 0)
    ∷ (8, enters 1 5)
    ∷ (7, enters 1 10)
    ∷ (7, exits 1 30)
    ∷ (7, enters 2 35)
    ∷ (8, exits 1 40)
    ∷ (7, exits 0 50)
    ∷ []

abbrev empty : Forest
empty = record { by_tid = [] }

run-calls_of_thread_example :
    (completed_by 7 (run hits empty).1 ≡ done_by_calls 7 calls)
    × (stack_in 7 (run hits empty).0.by_tid ≡ [])
run-calls_of_thread_example =
    run-calls_of_thread 7 calls hits empty refl
      ((((λ e. absurd (omega arith)), tt), (tt, tt, tt)), tt) refl
