-- ===== src/Profiler/Session/Ring.antt =====
-- What the ring of the wall clock holds, of rthas/src/profiler.rs.
use rthas.Prelude.{
  ℕ, zero, suc, ◌+◌, ◌-◌, ◌%◌, ◌≤◌, ◌<◌, min, ◌≡◌, refl, sym, ap, subst, ◌∙◌, ◌≢◌, inl, inr, true,
  false, false≢true, List, [], ◌∷◌, arith, ◌==◌, ==_iff, ==_refl, Bool-cases, length, take, All,
  length-append, u64_mod, succ_u64, succ_u64-eq, zero-add, add-zero, is_empty,
}
use rthas.Profiler.Session.{
  Profiler, wall_cap, wall_depth, set_slot, filled, wall_samples, wall_start, on_sigalrm,
}

-- The signals in order, each with its frames.
abbrev pub signals : List (List ℕ) → Profiler → Profiler
signals [] p = p
signals (frames ∷ later) p = signals later (on_sigalrm frames p)

-- The newest samples stand in the slots of their numbers, and nothing older counts. `stored q` is
-- what signal `q` found.
abbrev Holds : (ℕ → List ℕ) → ℕ → (ℕ → List ℕ) → Type 0
Holds stored n slots = (q : ℕ) → q < n → n ≤ q + wall_cap → slots (q % wall_cap) ≡ stored q

apart : (q n : ℕ) → (q % wall_cap == n % wall_cap) ≡ false → q ≢ n
apart q n other e =
    let same : (n % wall_cap == n % wall_cap) ≡ false =
      subst (λ k. (k % wall_cap == n % wall_cap) ≡ false) e other in
    false≢true (sym same ∙ ==_refl (n % wall_cap))

Holds-set :
    (stored slots : ℕ → List ℕ) (n : ℕ)
    → Holds stored n slots
    → Holds stored (suc n) (set_slot (n % wall_cap) (stored n) slots)
Holds-set stored slots n h q lt near = elim (Bool-cases (q % wall_cap == n % wall_cap)) [
  | inl same ↦
      let e = (==_iff (q % wall_cap) (n % wall_cap)).0 same in
      let here : q ≡ n = omega arith in rw same (ap stored (sym here))
  | inr other ↦
      let before : q < n = omega (arith, apart q n other) in rw other (h q before (omega arith))
]

-- The signals from number `n` on find what is stored.
abbrev Follows : (ℕ → List ℕ) → ℕ → List (List ℕ) → Type 0
Follows stored n [] = Unit
Follows stored n (frames ∷ later) =
    (stored n ≡ take wall_depth frames) × Follows stored (suc n) later

signals-Holds :
    (stored : ℕ → List ℕ) (n : ℕ) (found : List (List ℕ)) (p : Profiler)
    → p.wall_on ≡ true
    → p.wall_next ≡ n
    → n + length found < u64_mod
    → Holds stored n p.wall_slots
    → Follows stored n found
    → ((signals found p).wall_next ≡ n + length found)
      × Holds stored (n + length found) (signals found p).wall_slots
unfolding on_sigalrm
signals-Holds stored n [] p on next room h fol = (omega arith, rw (add-zero n) h)
signals-Holds stored n (frames ∷ later) p on next room h (here, fol) =
    let p' : Profiler = record p {
      wall_next = succ_u64 p.wall_next;
      wall_slots = set_slot (p.wall_next % wall_cap) (take wall_depth frames) p.wall_slots;
    } in
    let counted : succ_u64 n ≡ suc n = omega (arith, succ_u64-eq n (omega arith)) in
    let stepped : on_sigalrm frames p ≡ p' = simp on in
    let slots : Holds stored (suc n)
        (set_slot (p.wall_next % wall_cap) (take wall_depth frames) p.wall_slots) =
      subst
        (λ k. Holds stored (suc n) (set_slot (k % wall_cap) (take wall_depth frames) p.wall_slots))
        (sym next)
        (subst (λ v. Holds stored (suc n) (set_slot (n % wall_cap) v p.wall_slots)) here
          (Holds-set stored p.wall_slots n h)) in
    let (count, held) =
      signals-Holds stored (suc n) later p' on (ap succ_u64 next ∙ counted) (omega arith) slots
        fol in
    let shift : suc n + length later ≡ n + suc (length later) = omega arith in
    subst
      (λ (s : Profiler).
        ((signals later s).wall_next ≡ n + suc (length later))
        × Holds stored (n + suc (length later)) (signals later s).wall_slots)
      (sym stepped) (count ∙ shift, λ q lt near. held q (omega arith) (omega arith))

-- The frames of signal `q`, as deep as they are kept.
abbrev pub kept : List (List ℕ) → ℕ → List ℕ
kept [] q = []
kept (frames ∷ later) zero = take wall_depth frames
kept (frames ∷ later) (suc q) = kept later q

Follows-kept :
    (stored : ℕ → List ℕ) (n : ℕ) (found : List (List ℕ))
    → ((q : ℕ) → stored (n + q) ≡ kept found q)
    → Follows stored n found
Follows-kept stored n [] h = tt
Follows-kept stored n (frames ∷ later) h = (
  ap stored (sym (add-zero n)) ∙ h 0,
  Follows-kept stored (suc n) later (λ q. ap stored (shift q) ∙ h (suc q)),
)
  where
    shift : (q : ℕ) → suc n + q ≡ n + suc q
    shift q = omega arith

abbrev pub Shown : List ℕ → Type 0
Shown frames = is_empty frames ≡ false

kept-Shown :
    (found : List (List ℕ)) (q : ℕ) → All Shown found → q < length found → Shown (kept found q)
kept-Shown [] q all lt = absurd (omega arith)
kept-Shown ([] ∷ later) q (shown, all) lt = cc
kept-Shown ((f ∷ frames) ∷ later) zero all lt = refl
kept-Shown ((f ∷ frames) ∷ later) (suc q) (shown, all) lt = kept-Shown later q all (omega arith)

length-filled :
    (n : ℕ) (slots : ℕ → List ℕ) → ((i : ℕ) → i < n → Shown (slots i)) → length (filled n slots) ≡ n
length-filled zero slots h = refl
length-filled (suc n) slots h =
    let here : is_empty (slots n) ≡ false = h n (omega arith) in
    rw here (
      omega (
        arith,
        length-append (filled n slots) (slots n ∷ []),
        length-filled n slots (λ i lt. h i (omega arith)),
      ))

-- The newest signal whose slot is `i`.
abbrev newest_at : ℕ → ℕ → ℕ
newest_at n i = (n - 1) - ((n - 1 - i) % wall_cap)

newest_at-slot :
    (n i : ℕ)
    → i < min n wall_cap
    → (newest_at n i < n) × (n ≤ newest_at n i + wall_cap) × (newest_at n i % wall_cap ≡ i)
newest_at-slot n i lt = (omega arith, omega arith, omega arith)

-- After a start of the wall clock that succeeds, and fewer than 2^64 signals, each with a frame
-- at least, the newest of them, 4096 at most, stand in their slots with the frames that they found, 64
-- at most, and a snapshot has as many samples: one for each signal, or 4096 where there were more.
pub signals-newest :
    (found : List (List ℕ)) (p : Profiler)
    → length found < u64_mod
    → All Shown found
    → (length (wall_samples (signals found (wall_start true p).1)) ≡ min (length found) wall_cap)
      × ((q : ℕ)
          → q < length found
          → length found ≤ q + wall_cap
          → (signals found (wall_start true p).1).wall_slots (q % wall_cap) ≡ kept found q)
unfolding wall_start wall_samples
signals-newest found p room all =
    let fresh = (wall_start true p).1 in
    let (count, held) =
      signals-Holds (kept found) 0 found fresh refl refl (omega arith)
        (λ q lt near. absurd (omega arith))
        (Follows-kept (kept found) 0 found (λ q. ap (kept found) (zero-add q))) in
    let whole : 0 + length found ≡ length found = omega arith in
    let stored : Holds (kept found) (length found) (signals found fresh).wall_slots =
      subst (λ n. Holds (kept found) n (signals found fresh).wall_slots) whole held in
    let ticks : (signals found fresh).wall_next ≡ length found = count ∙ whole in
    (
      subst
          (λ n.
            length (filled (min n wall_cap) (signals found fresh).wall_slots)
            ≡ min (length found) wall_cap)
          (sym ticks)
          (length-filled (min (length found) wall_cap) (signals found fresh).wall_slots (λ i lt.
            let (below, near, slot) = newest_at-slot (length found) i lt in
            subst (λ k. Shown ((signals found fresh).wall_slots k)) slot
              (subst Shown (sym (stored (newest_at (length found) i) below near))
                (kept-Shown found (newest_at (length found) i) all below)))),
      stored,
    )
