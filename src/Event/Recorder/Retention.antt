-- ===== src/Event/Recorder/Retention.antt =====
-- What the recorder keeps: the newest events, and what a reader with a cursor sees.
use rthas.Prelude.{
  ℕ, suc, ◌+◌, ◌-◌, ◌≤◌, ◌<◌, min, max, ◌≡◌, refl, ap, ◌∙◌, true, false, List, [], ◌∷◌, ◌++◌,
  append-nil, arith, ltb, length, drop, All, length-append, length-drop, All-append, All-drop,
  All-map, pop_front_if_full, drop-newest_step, filter-drop-append, zero-add, u64_mod, succ_u64-eq,
}
use rthas.Event.{Event}
use rthas.Event.Recorder.{Recorder, new, push, since, last_seq, clear, push_all}

-- The events as they are stored: numbered in order from `n`.
abbrev pub stamp : ℕ → List Event → List Event
stamp n [] = []
stamp n (e ∷ es) = record e { seq = n } ∷ stamp (n + 1) es

length-stamp : (n : ℕ) (es : List Event) → length (stamp n es) ≡ length es
length-stamp n [] = refl
length-stamp n (e ∷ es) = ap suc (length-stamp (n + 1) es)

pub record IsValid (r : Recorder) : Type 0 where
  pub fits : length r.buf ≤ r.capacity
  pub room : 1 ≤ r.capacity
  pub started : 1 ≤ r.next_seq
  pub older : All (λ e. e.seq < r.next_seq) r.buf

pub new-IsValid : (capacity : ℕ) → IsValid (new capacity)
unfolding new
new-IsValid capacity = record {
  fits = omega arith;
  room = omega arith;
  started = omega arith;
  older = tt;
}

clear-IsValid : {r : Recorder} → IsValid r → IsValid (clear r)
unfolding clear
clear-IsValid v = record { fits = omega arith; room = v.room; started = v.started; older = tt }

-- What one `push` stores.
pub buf-push :
    (e : Event) (r : Recorder)
    → IsValid r
    → (push e r).buf
      ≡ drop (length r.buf + 1 - r.capacity) (r.buf ++ record e { seq = r.next_seq } ∷ [])
unfolding push
buf-push e r v = pop_front_if_full r.capacity r.buf _ v.fits v.room

capacity-push : (e : Event) (r : Recorder) → (push e r).capacity ≡ r.capacity
unfolding push
capacity-push e r = refl

next_seq-push :
    (e : Event) (r : Recorder) → r.next_seq + 1 < u64_mod → (push e r).next_seq ≡ r.next_seq + 1
unfolding push
next_seq-push e r h = succ_u64-eq r.next_seq h

length-buf-push-le : (e : Event) {r : Recorder} → IsValid r → length (push e r).buf ≤ r.capacity
length-buf-push-le e {r} v = rw (buf-push e r v) (
    omega (
      arith,
      length-drop (length r.buf + 1 - r.capacity) (r.buf ++ record e { seq = r.next_seq } ∷ []),
      length-append r.buf (record e { seq = r.next_seq } ∷ []),
    ))

push-IsValid :
    (e : Event) {r : Recorder} → IsValid r → r.next_seq + 1 < u64_mod → IsValid (push e r)
push-IsValid e {r} v small = record {
  fits = rw capacity-push (length-buf-push-le e v);
  room = rw capacity-push v.room;
  started = rw (next_seq-push e r small) (omega arith);
  older =
      rw (next_seq-push e r small, buf-push e r v)
        (All-drop _ (length r.buf + 1 - r.capacity) _
          (All-append _ r.buf _ (All-map (λ x h. omega arith) r.buf v.older) (omega arith)));
}

-- A run of pushes keeps the newest `capacity` of what was held and what was pushed.
buf-push_all :
    (es : List Event) (r : Recorder)
    → IsValid r
    → r.next_seq + length es < u64_mod
    → (push_all es r).buf
      ≡ drop (length r.buf + length es - r.capacity) (r.buf ++ stamp r.next_seq es)
unfolding push_all
buf-push_all [] r v h =
    let e : length r.buf + 0 - r.capacity ≡ 0 = omega (arith, v.fits) in rw (e, append-nil)
buf-push_all (e ∷ es) r v h =
    let next = next_seq-push e r (omega arith) in
    buf-push_all es (push e r) (push-IsValid e v (omega arith)) (rw next (omega arith))
    ∙ rw (capacity-push e r, next, ← length-stamp (r.next_seq + 1) es)
        (drop-newest_step r.capacity r.buf (stamp (r.next_seq + 1) es) (push e r).buf
          (record e { seq = r.next_seq }) v.fits v.room (buf-push e r v))

stamp-newer : (n : ℕ) (es : List Event) → 1 ≤ n → All (λ e. ltb (n - 1) e.seq ≡ true) (stamp n es)
stamp-newer n [] h = tt
stamp-newer n (e ∷ es) h = (
  ground arith,
  All-map (λ x k. ground arith) (stamp (n + 1) es) (stamp-newer (n + 1) es (omega arith)),
)

module _ (es : List Event) (r : Recorder) (v : IsValid r)
    (small : r.next_seq + length es < u64_mod) where
  new_events : All (λ e. ltb (r.next_seq - 1) e.seq ≡ true) (stamp r.next_seq es)
  new_events = stamp-newer r.next_seq es v.started

  old_events : All (λ e. ltb (r.next_seq - 1) e.seq ≡ false) r.buf
  old_events = All-map (λ x h. ground (arith, v.started)) r.buf v.older

  -- A reader that remembers `last_seq` and comes back after any run of pushes gets exactly the
  -- events pushed in between, numbered on from its cursor and in order, less the oldest of them
  -- where more than `capacity` were pushed: never an event twice, and none from before. The
  -- counter must not reach 2^64.
  pub since-push_all :
      since (last_seq r) (push_all es r) ≡ drop (length es - r.capacity) (stamp r.next_seq es)
  unfolding since last_seq
  since-push_all =
      rw (buf-push_all es r v small, ← length-stamp r.next_seq es)
        (filter-drop-append _ r.capacity r.buf (stamp r.next_seq es) v.fits old_events new_events)

-- Every counter of a recorder that has seen `n` pushes and no `clear`.
record Counts (n : ℕ) (r : Recorder) : Type 0 where
  next_seq : r.next_seq ≡ n + 1
  recorded : r.recorded ≡ n
  dropped : r.dropped ≡ n - r.capacity
  held : length r.buf ≡ min n r.capacity

Counts-push :
    (e : Event) {n : ℕ} {r : Recorder}
    → 1 ≤ r.capacity
    → n + 2 < u64_mod
    → Counts n r
    → Counts (n + 1) (push e r)
unfolding push
Counts-push e {n} {r} room small c =
    let stored = record e { seq = r.next_seq } in
    record {
      next_seq = rw c.next_seq (succ_u64-eq (n + 1) (omega arith));
      recorded = rw c.recorded (succ_u64-eq n (omega arith));
      dropped = ground (arith, c.dropped, c.held, succ_u64-eq r.dropped);
      held = rw (pop_front_if_full r.capacity r.buf stored (omega (arith, c.held)) room) (
          omega (
            arith,
            c.held,
            length-drop (length r.buf + 1 - r.capacity) (r.buf ++ stored ∷ []),
            length-append r.buf (stored ∷ []),
          ));
    }

Counts-push_all :
    (es : List Event) {n : ℕ} {r : Recorder}
    → 1 ≤ r.capacity
    → n + length es + 1 < u64_mod
    → Counts n r
    → Counts (n + length es) (push_all es r)
unfolding push_all
Counts-push_all [] {n} room small c = let e : n + 0 ≡ n = omega arith in rw e c
Counts-push_all (e ∷ es) {n} {r} room small c =
    let k : n + suc (length es) ≡ n + 1 + length es = omega arith in
    rw k (
      Counts-push_all es (rw (capacity-push e r) room) (omega arith)
        (Counts-push e room (omega arith) c))

Counts-new : (capacity : ℕ) → Counts 0 (new capacity)
unfolding new
Counts-new capacity = record {
  next_seq = refl;
  recorded = refl;
  dropped = omega arith;
  held = omega arith;
}

capacity-push_all : (es : List Event) (r : Recorder) → (push_all es r).capacity ≡ r.capacity
unfolding push_all
capacity-push_all [] r = refl
capacity-push_all (e ∷ es) r = capacity-push_all es (push e r) ∙ capacity-push e r

-- After any run of pushes on a new recorder the buffer holds the newest `capacity` events (one,
-- if the capacity asked for is 0), in order, numbered from 1; `recorded` counts all of them,
-- `dropped` those that are gone, and `last_seq` is the newest number. The counters must not
-- reach 2^64.
pub push_all-new :
    (capacity : ℕ) (es : List Event)
    → length es + 1 < u64_mod
    → ((push_all es (new capacity)).buf ≡ drop (length es - max capacity 1) (stamp 1 es))
      × ((push_all es (new capacity)).recorded ≡ length es)
      × ((push_all es (new capacity)).dropped ≡ length es - max capacity 1)
      × (last_seq (push_all es (new capacity)) ≡ length es)
unfolding new last_seq
push_all-new capacity es small =
    let c = Counts-push_all es (omega arith) (omega arith) (Counts-new capacity) in
    (
      rw zero-add at (buf-push_all es (new capacity) (new-IsValid capacity) (omega arith)),
      omega (arith, c.recorded),
      omega (arith, c.dropped, capacity-push_all es (new capacity)),
      omega (arith, c.next_seq),
    )
