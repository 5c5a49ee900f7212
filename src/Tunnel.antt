-- ===== src/Tunnel.antt =====
-- rthas/src/tunnel.rs: the bounded, indexed store of recorded calls behind `tt`.
pub mod Store
pub mod Lookup
use rthas.Prelude.{
  ℕ, ◌+◌, max, Bool, not, Option, List, [], ◌∷◌, ◌++◌, ltb, ◌==◌, if◌then◌else◌, length, pop_front,
  filter, find, succ_u64, Text,
}
use rthas.Event.{Event}

abbrev pub default_tt_capacity : ℕ
default_tt_capacity = 100

abbrev pub first_index : ℕ
first_index = 1000

pub record Fragment : Type 0 where
  pub index : ℕ
  pub start_ns : ℕ
  pub dur_ns : ℕ
  pub ok : Bool
  pub probe : ℕ
  pub path : Text
  pub tid : ℕ
  pub task : ℕ
  pub args : Text
  pub ret : Text

abbrev pub from_event : ℕ → Event → Text → Fragment
from_event index event path = record {
  index = index;
  start_ns = event.start_ns;
  dur_ns = event.dur_ns;
  ok = event.ok;
  probe = event.probe;
  path = path;
  tid = event.tid;
  task = event.task;
  args = event.args;
  ret = event.ret;
}

-- `Inner` and the capacity beside it.
pub record Tunnel : Type 0 where
  pub buf : List Fragment
  pub next_index : ℕ
  pub capacity : ℕ

unfoldable pub new : ℕ → Tunnel
new capacity = record { buf = []; next_index = first_index; capacity = max capacity 1 }

-- `record`: the new store and the index given out.
unfoldable pub add : Event → Text → Tunnel → Tunnel × ℕ
add event path t =
    let kept = if length t.buf == t.capacity then pop_front t.buf else t.buf in
    (
      record t {
        buf = kept ++ from_event t.next_index event path ∷ [];
        next_index = succ_u64 t.next_index;
      },
      t.next_index,
    )

-- `list` clones the buffer: it is `t.buf`.
unfoldable pub get : ℕ → Tunnel → Option Fragment
get index t = find (λ f. f.index == index) t.buf

unfoldable pub delete : ℕ → Tunnel → Tunnel × Bool
delete index t =
    let kept = filter (λ f. not (f.index == index)) t.buf in
    (record t { buf = kept }, ltb (length kept) (length t.buf))

unfoldable pub clear : Tunnel → Tunnel
clear t = record t { buf = [] }
