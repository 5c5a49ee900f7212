-- ===== src/Tree/Adopt.antt =====
-- A forest that is fed the events of whole calls in the order in which they complete.
pub mod Step
use rthas.Prelude.{
  ℕ, zero, suc, ◌+◌, ◌-◌, ◌≤◌, ◌<◌, ◌≡◌, refl, ap, ◌∙◌, ◌≢◌, ◌⊎◌, inl, inr, true, false, not, some,
  List, [], ◌∷◌, ◌++◌, map, append-nil, append_assoc, arith, ◌==◌, Bool-cases, filter, All,
  All-append, filter-All, filter-none, All-map, upsert, Lacks, upsert-Lacks, Lacks-append,
  Lacks-upsert, upsert-append_Lacks, is_empty,
}
use rthas.Event.{Event}
use rthas.Tree.{Node, Waiting, Forest, is_fresh, still_waiting, expired, promote_expired, add}
use rthas.Tree.Take.{Tree, Trees, tree, nil, cons}

abbrev pub count : Trees → ℕ
count nil = 0
count (cons (tree e kids) ts) = suc (count kids + count ts)

-- The events of the calls in the order of completion: children before their parent.
abbrev pub postorder : Trees → List Event
postorder nil = []
postorder (cons (tree e kids) ts) = postorder kids ++ e ∷ postorder ts

abbrev pub roots : Trees → List ℕ
roots nil = []
roots (cons (tree e kids) ts) = e.span ∷ roots ts

-- The nodes that a forest holds for complete subtrees.
abbrev pub flat : Trees → List (ℕ × Node)
flat nil = []
flat (cons (tree e kids) ts) =
    flat kids ++ (e.span, record { event = some e; children = roots kids }) ∷ flat ts

-- Siblings under the span `p`, numbered from `lo` in the order in which calls begin.
abbrev pub Numbered : ℕ → ℕ → Trees → Type 0
Numbered p lo nil = Unit
Numbered p lo (cons (tree e kids) ts) =
    (e.span ≡ lo)
    × (e.parent ≡ p)
    × Numbered e.span (lo + 1) kids
    × Numbered p (lo + 1 + count kids) ts

-- `add` for each event, with the two clock readings that `clock` gives for it.
unfoldable pub feed : (Event → ℕ × ℕ) → List Event → Forest → Forest
feed clock [] f = f
feed clock (e ∷ es) f = feed clock es (add e (clock e).0 (clock e).1 f).0

pub feed-append :
    (clock : Event → ℕ × ℕ) (es es' : List Event) (f : Forest)
    → feed clock (es ++ es') f ≡ feed clock es' (feed clock es f)
unfolding feed
feed-append clock [] es' f = refl
feed-append clock (e ∷ es) es' f = feed-append clock es es' (add e (clock e).0 (clock e).1 f).0

-- No key from `lo` on, for `n` keys.
abbrev pub Free {ℓ} : {V : Type ℓ} → ℕ → ℕ → List (ℕ × V) → Type 0
Free lo n m = (k : ℕ) → lo ≤ k → k < lo + n → Lacks k m

pub flat-Lacks :
    (k p lo : ℕ) (ts : Trees)
    → Numbered p lo ts
    → (k < lo) ⊎ (lo + count ts ≤ k)
    → Lacks k (flat ts)
flat-Lacks k p lo nil h out = tt
flat-Lacks k p lo (cons (tree e kids) ts) h out =
    Lacks-append k (flat kids) _ (flat-Lacks k e.span (lo + 1) kids h.2 (omega arith))
      (omega arith, flat-Lacks k p (lo + 1 + count kids) ts h.3 (omega arith))

-- Entries that no `promote_expired` before `t0 + grace` touches.
abbrev pub Fresh : ℕ → List (ℕ × List Waiting) → Type 0
Fresh t0 m =
    All (λ entry. (is_empty entry.1 ≡ false) × All (λ (w : Waiting). t0 ≤ w.since) entry.1) m

module _ (t0 grace now : ℕ) (some_grace : 0 < grace) (soon : now < t0 + grace) where
  is_fresh-soon : (w : Waiting) → t0 ≤ w.since → is_fresh now grace w ≡ true
  is_fresh-soon w h = ground arith

  not-is_fresh-soon : (w : Waiting) → t0 ≤ w.since → not (is_fresh now grace w) ≡ false
  not-is_fresh-soon w h = ground arith

  filter-fresh :
      (ws : List Waiting)
      → All (λ w. t0 ≤ w.since) ws
      → (filter (is_fresh now grace) ws ≡ ws) × (filter (λ w. not (is_fresh now grace w)) ws ≡ [])
  filter-fresh ws h = (
    filter-All _ ws (All-map is_fresh-soon ws h),
    filter-none _ ws (All-map not-is_fresh-soon ws h),
  )

  still_waiting-Fresh :
      (m : List (ℕ × List Waiting))
      → Fresh t0 m
      → (still_waiting now grace m ≡ m) × (expired now grace m ≡ [])
  unfolding still_waiting expired
  still_waiting-Fresh [] h = (refl, refl)
  still_waiting-Fresh ((p, ws) ∷ m) h =
      let (same, gone) = filter-fresh ws h.0.1 in
      let (rest, none_gone) = still_waiting-Fresh m h.1 in
      (rw (same, h.0.0, rest) refl, rw (gone, none_gone) refl)

  pub promote_expired-Fresh :
      (f : Forest) → f.grace ≡ grace → Fresh t0 f.waiting → promote_expired now f ≡ f
  unfolding promote_expired
  promote_expired-Fresh f e h =
      let (rest, none_gone) = still_waiting-Fresh f.waiting h in
      rw (e, rest, none_gone) (λ i. record f { grace = grace; ready = append-nil f.ready i })

-- The entry under which a span waits for its parent.
abbrev pub waits : (Event → ℕ × ℕ) → Event → Waiting
waits clock e = record { span = e.span; since = (clock e).1 }

abbrev pub wait : (Event → ℕ × ℕ) → ℕ → Event → List (ℕ × List Waiting) → List (ℕ × List Waiting)
wait clock p e m = upsert p (λ ws. ws ++ waits clock e ∷ []) (waits clock e ∷ []) m

abbrev pub wait_all :
    (Event → ℕ × ℕ) → ℕ → Trees → List (ℕ × List Waiting) → List (ℕ × List Waiting)
wait_all clock p nil m = m
wait_all clock p (cons (tree e kids) ts) m = wait_all clock p ts (wait clock p e m)

abbrev pub waits_all : (Event → ℕ × ℕ) → Trees → List Waiting
waits_all clock nil = []
waits_all clock (cons (tree e kids) ts) = waits clock e ∷ waits_all clock ts

module _ (clock : Event → ℕ × ℕ) where
  pub spans-waits_all : (ts : Trees) → map (λ (w : Waiting). w.span) (waits_all clock ts) ≡ roots ts
  spans-waits_all nil = refl
  spans-waits_all (cons (tree e kids) ts) = ap (◌∷◌ e.span) (spans-waits_all ts)

  wait_all-append :
      (p : ℕ) (ts : Trees) (ws : List Waiting) (m : List (ℕ × List Waiting))
      → Lacks p m
      → wait_all clock p ts (m ++ (p, ws) ∷ []) ≡ m ++ (p, ws ++ waits_all clock ts) ∷ []
  wait_all-append p nil ws m h = rw append-nil
  wait_all-append p (cons (tree e kids) ts) ws m h =
      rw (upsert-append_Lacks p (λ us. us ++ waits clock e ∷ []) (waits clock e ∷ []) ws m h) (
        wait_all-append p ts (ws ++ waits clock e ∷ []) m h
        ∙ rw (append_assoc ws (waits clock e ∷ []) (waits_all clock ts)))

  pub wait_all-cons :
      (p : ℕ) (t : Tree) (ts : Trees) (m : List (ℕ × List Waiting))
      → Lacks p m
      → wait_all clock p (cons t ts) m ≡ m ++ (p, waits_all clock (cons t ts)) ∷ []
  wait_all-cons p (tree e kids) ts m h =
      rw (upsert-Lacks p (λ us. us ++ waits clock e ∷ []) (waits clock e ∷ []) m h)
        (wait_all-append p ts (waits clock e ∷ []) m h)

  pub Lacks-wait_all :
      (k p : ℕ) (ts : Trees) (m : List (ℕ × List Waiting))
      → p ≢ k
      → Lacks k m
      → Lacks k (wait_all clock p ts m)
  Lacks-wait_all k p nil m ne h = h
  Lacks-wait_all k p (cons (tree e kids) ts) m ne h =
      Lacks-wait_all k p ts _ ne (Lacks-upsert k p _ _ m ne h)

is_empty-snoc {ℓ} : {A : Type ℓ} (xs : List A) (x : A) → is_empty (xs ++ x ∷ []) ≡ false
is_empty-snoc [] x = refl
is_empty-snoc (y ∷ xs) x = refl

module _ (clock : Event → ℕ × ℕ) (t0 : ℕ) (late : (e : Event) → t0 ≤ (clock e).1) where
  pub Fresh-wait :
      (p : ℕ) (e : Event) (m : List (ℕ × List Waiting)) → Fresh t0 m → Fresh t0 (wait clock p e m)
  Fresh-wait p e [] h = ((refl, (late e, tt)), tt)
  Fresh-wait p e ((j, ws) ∷ m) h = elim (Bool-cases (j == p)) [
    | inl same ↦ rw same ((is_empty-snoc ws _, All-append _ ws _ h.0.1 (late e, tt)), h.1)
    | inr other ↦ rw other (h.0, Fresh-wait p e m h.1)
  ]

  pub Fresh-wait_all :
      (p : ℕ) (ts : Trees) (m : List (ℕ × List Waiting))
      → Fresh t0 m
      → Fresh t0 (wait_all clock p ts m)
  Fresh-wait_all p nil m h = h
  Fresh-wait_all p (cons (tree e kids) ts) m h = Fresh-wait_all p ts _ (Fresh-wait p e m h)

-- Where a completed span goes: a root to the ready queue, any other into the list of those that
-- wait for its parent.
abbrev pub settle : (Event → ℕ × ℕ) → ℕ → Event → Forest → Forest
settle clock zero e f = record f { ready = f.ready ++ e.span ∷ [] }
settle clock (suc p) e f = record f { waiting = wait clock (suc p) e f.waiting }

abbrev pub settle_all : (Event → ℕ × ℕ) → ℕ → Trees → Forest → Forest
settle_all clock p nil f = f
settle_all clock p (cons (tree e kids) ts) f = settle_all clock p ts (settle clock p e f)

pub settle_all-wait :
    (clock : Event → ℕ × ℕ) (p : ℕ) (ts : Trees) (f : Forest)
    → 1 ≤ p
    → settle_all clock p ts f ≡ record f { waiting = wait_all clock p ts f.waiting }
settle_all-wait clock zero ts f h = absurd (omega arith)
settle_all-wait clock (suc p) nil f h = refl
settle_all-wait clock (suc p) (cons (tree e kids) ts) f h =
    settle_all-wait clock (suc p) ts (settle clock (suc p) e f) h
