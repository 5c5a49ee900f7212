-- ===== src/Tunnel/Lookup.antt =====
-- What `get` answers after each operation of the store of rthas/src/tunnel.rs.
use rthas.Prelude.{
  ℕ, ◌≤◌, ◌<◌, ◌≡◌, refl, ◌≢◌, inl, inr, Bool, false, not, ◌&&◌, none, some, List, [], ◌∷◌, ◌++◌,
  arith, ltb, ◌==◌, if◌then◌else◌, ==_iff, Bool-cases, length, pop_front, filter, find, All,
  length-filter-le, Text, is_some,
}
use rthas.Event.{Event}
use rthas.Tunnel.{Fragment, from_event, Tunnel, add, get, delete}
use rthas.Tunnel.Store.{Rises, IsValid}

abbrev at : ℕ → Fragment → Bool
at i f = f.index == i

find-append_new :
    (i : ℕ) (fs : List Fragment) (g : Fragment)
    → All (λ f. f.index < i) fs
    → g.index ≡ i
    → find (at i) (fs ++ g ∷ []) ≡ some g
find-append_new i [] g a e = ground arith
find-append_new i (f ∷ fs) g a e = ground (arith, find-append_new i fs g a.1 e)

find-append_other :
    (i : ℕ) (fs : List Fragment) (g : Fragment)
    → g.index ≢ i
    → find (at i) (fs ++ g ∷ []) ≡ find (at i) fs
find-append_other i [] g e = ground arith
find-append_other i (f ∷ fs) g e = ground (arith, find-append_other i fs g e)

find-Rises : (i n : ℕ) (fs : List Fragment) → i ≤ n → Rises n fs → find (at i) fs ≡ none
find-Rises i n [] h r = refl
find-Rises i n (f ∷ fs) h r = ground (arith, find-Rises i f.index fs (omega arith) r.1)

-- Whether the oldest fragment has this index.
abbrev pub heads : ℕ → List Fragment → Bool
heads i [] = false
heads i (f ∷ fs) = f.index == i

find-pop_front :
    (i : ℕ) (fs : List Fragment)
    → Rises 0 fs
    → find (at i) (pop_front fs) ≡ (if heads i fs then none else find (at i) fs)
find-pop_front i [] r = refl
find-pop_front i (f ∷ fs) r = ground (arith, find-Rises i f.index fs)

find-filter :
    (i j : ℕ) (fs : List Fragment)
    → find (at j) (filter (λ f. not (f.index == i)) fs) ≡ (if i == j then none else find (at j) fs)
find-filter i j [] = ground arith
find-filter i j (f ∷ fs) = ground (arith, find-filter i j fs)

kept : Tunnel → List Fragment
kept t = if length t.buf == t.capacity then pop_front t.buf else t.buf

All-pop_front {κ} : (P : Fragment → Type κ) (fs : List Fragment) → All P fs → All P (pop_front fs)
All-pop_front P [] a = tt
All-pop_front P (f ∷ fs) a = a.1

kept-older : (t : Tunnel) → IsValid t → All (λ f. f.index < t.next_index) (kept t)
unfolding kept
kept-older t v = elim (Bool-cases (length t.buf == t.capacity)) [
  | inl full ↦ rw full (All-pop_front _ t.buf v.older)
  | inr more ↦ rw more v.older
]

find-kept :
    (t : Tunnel) (i : ℕ)
    → IsValid t
    → find (at i) (kept t)
      ≡ (if (length t.buf == t.capacity) && heads i t.buf then none else find (at i) t.buf)
unfolding kept
find-kept t i v = ground (arith, find-pop_front i t.buf v.rises)

-- A call that has just been recorded is found under the index that was given out, as it was; and
-- every other index answers as before, but for the oldest one when the store was full.
pub get-add :
    (e : Event) (path : Text) (t : Tunnel) (i : ℕ)
    → IsValid t
    → get i (add e path t).0 ≡ (
        if i == (add e path t).1
        then some (from_event i e path)
        else if (length t.buf == t.capacity) && heads i t.buf
        then none
        else get i t)
unfolding get add kept
get-add e path t i v = elim (Bool-cases (i == t.next_index)) [
  | inl new ↦
      let e' : i ≡ t.next_index = (==_iff i t.next_index).0 new in
      rw (new, e') (find-append_new t.next_index _ _ (kept-older t v) refl)
  | inr old ↦
      rw (old, find-append_other i (kept t) (from_event t.next_index e path) (ground arith))
        (find-kept t i v)
]

length-filter-find :
    (i : ℕ) (fs : List Fragment)
    → ltb (length (filter (λ f. not (f.index == i)) fs)) (length fs) ≡ is_some (find (at i) fs)
length-filter-find i [] = refl
length-filter-find i (f ∷ fs) =
    let p : Fragment → Bool = λ f'. not (f'.index == i) in
    ground (arith, length-filter-find i fs, length-filter-le p fs)

-- `delete` removes the fragment of one index and no other, and answers whether there was one.
get-delete :
    (i j : ℕ) (t : Tunnel)
    → (get j (delete i t).0 ≡ (if i == j then none else get j t))
      × ((delete i t).1 ≡ is_some (get i t))
unfolding get delete
get-delete i j t = (find-filter i j t.buf, length-filter-find i t.buf)
