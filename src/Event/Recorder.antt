-- ===== src/Event/Recorder.antt =====
-- `Recorder` of rthas/src/event.rs.
pub mod Retention
use rthas.Prelude.{
  ℕ, ◌+◌, ◌-◌, max, List, [], ◌∷◌, ◌++◌, ltb, ◌==◌, if◌then◌else◌, length, pop_front, filter,
  succ_u64,
}
use rthas.Event.{Event}

-- `Inner` and the capacity beside it; the lock is held during each operation.
pub record Recorder : Type 0 where
  pub buf : List Event
  pub next_seq : ℕ
  pub dropped : ℕ
  pub recorded : ℕ
  pub capacity : ℕ

unfoldable pub new : ℕ → Recorder
new capacity = record {
  buf = [];
  next_seq = 1;
  dropped = 0;
  recorded = 0;
  capacity = max capacity 1;
}

unfoldable pub push : Event → Recorder → Recorder
push event r =
    let full = length r.buf == r.capacity in
    record r {
      buf = (if full then pop_front r.buf else r.buf) ++ record event { seq = r.next_seq } ∷ [];
      next_seq = succ_u64 r.next_seq;
      dropped = if full then succ_u64 r.dropped else r.dropped;
      recorded = succ_u64 r.recorded;
    }

unfoldable pub since : ℕ → Recorder → List Event
since seq r = filter (λ e. ltb seq e.seq) r.buf

unfoldable pub last_seq : Recorder → ℕ
last_seq r = r.next_seq - 1

unfoldable pub clear : Recorder → Recorder
clear r = record r { buf = [] }

-- A run of calls of `push`, the oldest first.
unfoldable pub push_all : List Event → Recorder → Recorder
unfolding push
push_all [] r = r
push_all (e ∷ es) r = push_all es (push e r)
