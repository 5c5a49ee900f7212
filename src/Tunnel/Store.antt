-- ===== src/Tunnel/Store.antt =====
-- The store of rthas/src/tunnel.rs as a bounded map: its invariant, and what each operation does to `get`.
use rthas.Prelude.{
  ℕ, zero, suc, ◌+◌, ◌-◌, ◌≤◌, ◌<◌, ◌≡◌, refl, inl, inr, Bool, not, List, [], ◌∷◌, ◌++◌, arith,
  ◌==◌, Bool-cases, length, drop, filter, All, length-append, length-drop, All-append,
  length-filter-le, All-drop, All-map, pop_front_if_full, u64_mod, succ_u64-eq, Text,
}
use rthas.Event.{Event}
use rthas.Tunnel.{Fragment, from_event, Tunnel, first_index, new, add, delete, clear}

-- Every index of the list is above `n`, and they rise.
abbrev pub Rises : ℕ → List Fragment → Type 0
Rises n [] = Unit
Rises n (f ∷ fs) = (n < f.index) × Rises f.index fs

pub record IsValid (t : Tunnel) : Type 0 where
  pub fits : length t.buf ≤ t.capacity
  pub room : 1 ≤ t.capacity
  pub older : All (λ f. f.index < t.next_index) t.buf
  pub first : All (λ f. first_index ≤ f.index) t.buf
  pub rises : Rises 0 t.buf
  pub started : first_index ≤ t.next_index

weaken-Rises : (m n : ℕ) (fs : List Fragment) → m ≤ n → Rises n fs → Rises m fs
weaken-Rises m n [] h r = tt
weaken-Rises m n (f ∷ fs) h r = (omega arith, r.1)

Rises-snoc :
    (n : ℕ) (fs : List Fragment) (g : Fragment)
    → n < g.index
    → All (λ f. f.index < g.index) fs
    → Rises n fs
    → Rises n (fs ++ g ∷ [])
Rises-snoc n [] g h a r = (h, tt)
Rises-snoc n (f ∷ fs) g h a r = (r.0, Rises-snoc f.index fs g a.0 a.1 r.1)

Rises-drop : (k n : ℕ) (fs : List Fragment) → Rises n fs → Rises n (drop k fs)
Rises-drop zero n fs r = r
Rises-drop (suc k) n [] r = tt
Rises-drop (suc k) n (f ∷ fs) r = Rises-drop k n fs (weaken-Rises n f.index fs (omega arith) r.1)

Rises-filter :
    (p : Fragment → Bool) (n : ℕ) (fs : List Fragment) → Rises n fs → Rises n (filter p fs)
Rises-filter p n [] r = tt
Rises-filter p n (f ∷ fs) r =
    let rest = Rises-filter p f.index fs r.1 in
    elim (Bool-cases (p f)) [
      | inl keep ↦ rw keep (r.0, rest)
      | inr lose ↦ rw lose (weaken-Rises n f.index (filter p fs) (omega arith) rest)
    ]

All-filter {κ} :
    (P : Fragment → Type κ) (p : Fragment → Bool) (fs : List Fragment)
    → All P fs
    → All P (filter p fs)
All-filter P p [] a = tt
All-filter P p (f ∷ fs) a =
    let rest = All-filter P p fs a.1 in
    elim (Bool-cases (p f)) [ inl keep ↦ rw keep (a.0, rest) | inr lose ↦ rw lose rest ]

buf-add :
    (e : Event) (path : Text) (t : Tunnel)
    → IsValid t
    → (add e path t).0.buf
      ≡ drop (length t.buf + 1 - t.capacity) (t.buf ++ from_event t.next_index e path ∷ [])
unfolding add
buf-add e path t v = pop_front_if_full t.capacity t.buf _ v.fits v.room

pub new-IsValid : (capacity : ℕ) → IsValid (new capacity)
unfolding new
new-IsValid capacity = record {
  fits = omega arith;
  room = omega arith;
  older = tt;
  first = tt;
  rises = tt;
  started = omega arith;
}

next_index-add :
    (e : Event) (path : Text) (t : Tunnel)
    → t.next_index + 1 < u64_mod
    → (add e path t).0.next_index ≡ t.next_index + 1
unfolding add
next_index-add e path t h = succ_u64-eq t.next_index h

capacity-add : (e : Event) (path : Text) (t : Tunnel) → (add e path t).0.capacity ≡ t.capacity
unfolding add
capacity-add e path t = refl

add-IsValid :
    (e : Event) (path : Text) {t : Tunnel}
    → IsValid t
    → t.next_index + 1 < u64_mod
    → IsValid (add e path t).0
add-IsValid e path {t} v small =
    let g = from_event t.next_index e path in
    let k = length t.buf + 1 - t.capacity in
    let stored = buf-add e path t v in
    record {
      fits =
          rw (stored, capacity-add e path t)
            (omega (
              arith,
              v.fits,
              v.room,
              length-drop k (t.buf ++ g ∷ []),
              length-append t.buf (g ∷ []),
            ));
      room = rw (capacity-add e path t) v.room;
      older =
          rw (stored, next_index-add e path t small)
            (All-drop _ k _ (
              All-append _ t.buf _ (All-map (λ x h. omega arith) t.buf v.older) (omega arith, tt)));
      first = rw stored (All-drop _ k _ (All-append _ t.buf (g ∷ []) v.first (v.started, tt)));
      rises =
          rw stored
            (Rises-drop k 0 _ (Rises-snoc 0 t.buf g (omega (arith, v.started)) v.older v.rises));
      started = rw (next_index-add e path t small) (omega (arith, v.started));
    }

delete-IsValid : (i : ℕ) {t : Tunnel} → IsValid t → IsValid (delete i t).0
unfolding delete
delete-IsValid i {t} v = record {
  fits = omega (arith, v.fits, length-filter-le (λ (f : Fragment). not (f.index == i)) t.buf);
  room = v.room;
  older = All-filter _ _ t.buf v.older;
  first = All-filter _ _ t.buf v.first;
  rises = Rises-filter _ 0 t.buf v.rises;
  started = v.started;
}

clear-IsValid : {t : Tunnel} → IsValid t → IsValid (clear t)
unfolding clear
clear-IsValid v = record {
  fits = omega arith;
  room = v.room;
  older = tt;
  first = tt;
  rises = tt;
  started = v.started;
}

-- The calls that change the store.
pub data Op : Type 0 where
  record_call : Event → Text → Op
  delete_index : ℕ → Op
  clear_all : Op

pub apply : Op → Tunnel → Tunnel
apply (record_call e path) t = (add e path t).0
apply (delete_index i) t = (delete i t).0
apply clear_all t = clear t

pub run : List Op → Tunnel → Tunnel
unfolding apply
run [] t = t
run (op ∷ ops) t = run ops (apply op t)

apply-IsValid :
    (op : Op) {t : Tunnel}
    → IsValid t
    → t.next_index + 1 < u64_mod
    → IsValid (apply op t) × ((apply op t).next_index ≤ t.next_index + 1)
unfolding apply
apply-IsValid (record_call e path) {t} v h =
    (add-IsValid e path v h, omega (arith, next_index-add e path t h))
apply-IsValid (delete_index i) v h = (delete-IsValid i v, unfold delete in omega arith)
apply-IsValid clear_all v h = (clear-IsValid v, unfold clear in omega arith)

run-IsValid :
    (ops : List Op) {t : Tunnel}
    → IsValid t
    → t.next_index + length ops < u64_mod
    → IsValid (run ops t)
unfolding run
run-IsValid [] v h = v
run-IsValid (op ∷ ops) {t} v h =
    let (w, le) = apply-IsValid op v (omega arith) in run-IsValid ops w (omega arith)

-- However calls are recorded, deleted and cleared, a store never exceeds its capacity (1, if 0
-- was asked for), its indices rise strictly from 1000 on, and all are below the next one to be
-- given out, so no index is given twice. The counter must not reach 2^64.
pub run-new-IsValid :
    (capacity : ℕ) (ops : List Op)
    → first_index + length ops < u64_mod
    → IsValid (run ops (new capacity))
run-new-IsValid capacity ops h = run-IsValid ops (new-IsValid capacity) (unfold new in omega arith)
