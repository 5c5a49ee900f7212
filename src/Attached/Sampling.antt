-- ===== src/Attached/Sampling.antt =====
-- The events of rthas-ebpf/src/event.rs and the collecting of samples of rthas-ebpf/src/server.rs.
-- What a poll of the ring buffer gives, the ids of the addresses and whether the time is up are
-- inputs.
pub mod Newest
pub mod Decoding
use rthas.Prelude.{
  ℕ, ◌+◌, ◌*◌, Bool, ◌&&◌, not, Option, none, some, List, [], ◌∷◌, ◌++◌, ◌==◌, ltb, leb,
  if◌then◌else◌, length, pop_front, drop, take,
}
use rthas.Uprobes
use rthas.Uprobes.{Forest, Node, node}

pub record RawEvent : Type 0 where
  pub ts_ns : ℕ
  pub ip : ℕ
  pub tid : ℕ
  pub kind : ℕ

abbrev pub kind_enter : ℕ
kind_enter = 0

abbrev pub kind_exit : ℕ
kind_exit = 1

-- The value of bytes with the lowest first, as x86-64 and AArch64 keep it.
abbrev pub little_endian : List ℕ → ℕ
little_endian [] = 0
little_endian (b ∷ bytes) = b + 256 * little_endian bytes

-- The size of the record is 24, its padding of three bytes included.
unfoldable pub from_bytes : List ℕ → Option RawEvent
from_bytes bytes =
    if ltb (length bytes) 24
    then none
    else some (record {
      ts_ns = little_endian (take 8 bytes);
      ip = little_endian (take 8 (drop 8 bytes));
      tid = little_endian (take 4 (drop 16 bytes));
      kind = little_endian (take 1 (drop 20 bytes));
    })

pub record Sample : Type 0 where
  pub id : ℕ
  pub dur_ns : ℕ

abbrev pub sample_cap : ℕ
sample_cap = 16384

abbrev pub id_of : Node → ℕ
id_of (node id dur children) = id

abbrev pub duration_of : Node → ℕ
duration_of (node id dur children) = dur

abbrev pub sample_of : Option Uprobes.Completed → List Sample
sample_of none = []
sample_of (some done) = record { id = id_of done.node; dur_ns = duration_of done.node } ∷ []

-- One event, with the id of its address, if it has one.
unfoldable pub ingest_event : (ℕ → Option ℕ) → RawEvent → Forest → Forest × List Sample
unfolding Uprobes.enter Uprobes.exit
ingest_event lookup_ip ev forest = elim (lookup_ip ev.ip) [
  | none ↦ (forest, [])
  | some id ↦
      if ev.kind == kind_enter
      then (Uprobes.enter ev.tid id ev.ts_ns forest, [])
      else if not (ev.kind == kind_exit)
      then (forest, [])
      else let (forest', done) = Uprobes.exit ev.tid id ev.ts_ns forest in (forest', sample_of done)
]

unfoldable pub ingest : (ℕ → Option ℕ) → List RawEvent → Forest → Forest × List Sample
unfolding ingest_event
ingest lookup_ip [] forest = (forest, [])
ingest lookup_ip (ev ∷ events) forest =
    let (forest', samples) = ingest_event lookup_ip ev forest in
    let (forest'', later) = ingest lookup_ip events forest' in (forest'', samples ++ later)

-- `if buf.len() == SAMPLE_CAP { buf.pop_front(); } buf.push_back(s);`.
unfoldable pub push_sample : List Sample → Sample → List Sample
push_sample buf s = (if length buf == sample_cap then pop_front buf else buf) ++ s ∷ []

unfoldable pub push_samples : List Sample → List Sample → List Sample
unfolding push_sample
push_samples buf [] = buf
push_samples buf (s ∷ samples) = push_samples (push_sample buf s) samples

-- A poll and whether the deadline has passed after it. Where the polls run out the command is still
-- waiting: there is no answer.
unfoldable pub collect_from :
    (ℕ → Option ℕ) → ℕ → List (List RawEvent × Bool) → Forest → List Sample → Option (List Sample)
unfolding ingest push_samples
collect_from lookup_ip max_count [] forest buf = none
collect_from lookup_ip max_count ((events, late) ∷ polls) forest buf =
    let (forest', samples) = ingest lookup_ip events forest in
    let buf' = push_samples buf samples in
    let rest = collect_from lookup_ip max_count polls forest' buf' in
    if ltb 0 max_count && leb max_count (length buf')
    then some buf'
    else if late
    then some buf'
    else rest

abbrev pub new_forest : Forest
new_forest = record { by_tid = [] }

unfoldable pub collect_samples :
    (ℕ → Option ℕ) → ℕ → List (List RawEvent × Bool) → Option (List Sample)
unfolding collect_from
collect_samples lookup_ip max_count polls = collect_from lookup_ip max_count polls new_forest []
