-- ===== src/Tree/Collect.antt =====
-- Taking complete subtrees out of a forest gives the calls back.
use rthas.Prelude.{
  ℕ, zero, suc, ◌+◌, ◌≤◌, ◌<◌, ◌≡◌, refl, sym, ap, ◌∙◌, ◌⊎◌, not, some, List, [], ◌∷◌, ◌++◌,
  append-nil, append_assoc, arith, ◌==◌, length, filter, All, length-append, filter-All, All-map,
  lookup, remove, Lacks, lookup-append_Lacks, remove-append_Lacks, lookup-append_at,
  remove-append_at,
}
use rthas.Event.{Event}
use rthas.Tree.{Node, Forest, with_grace, release}
use rthas.Tree.Take.{
  Trees, tree, nil, cons, take_children, take_fuel, take_tree, drain_fuel, drain_roots,
}
use rthas.Tree.Adopt.{
  count, postorder, roots, flat, Numbered, feed, Free, flat-Lacks, settle, settle_all,
}
use rthas.Tree.Adopt.Step.{complete}
use rthas.Tree.Rebuild.{feed-Numbered}

-- No number of `lo`, `lo + 1`, … `lo + n - 1` is in the list.
abbrev Apart : ℕ → ℕ → List ℕ → Type 0
Apart lo n = All (λ r. (r < lo) ⊎ (lo + n ≤ r))

filter-Apart :
    (k lo n : ℕ) (rs : List ℕ)
    → Apart lo n rs
    → lo ≤ k
    → k < lo + n
    → filter (λ r. not (r == k)) rs ≡ rs
filter-Apart k lo n rs h a b = filter-All _ rs (All-map (λ r out. ground arith) rs h)

module _ (e : Event) (kids : Trees) (a b : List (ℕ × Node)) (f : Forest) where
  -- The node of a call behind those of its children.
  abbrev behind_kids : List (ℕ × Node)
  behind_kids = a ++ (flat kids ++ (e.span, complete e kids) ∷ b)

  take_fuel-flat :
      (k : ℕ)
      → Lacks e.span a
      → Lacks e.span (flat kids)
      → filter (λ r. not (r == e.span)) f.ready ≡ f.ready
      → take_children (take_fuel k) (roots kids) (record f { nodes = a ++ (flat kids ++ b) })
        ≡ some (kids, record f { nodes = a ++ b })
      → take_fuel (suc k) e.span (record f { nodes = behind_kids })
        ≡ some (some (tree e kids), record f { nodes = a ++ b })
  unfolding take_fuel
  take_fuel-flat k no_a no_kids ready ih =
      let found : lookup e.span behind_kids ≡ some (complete e kids) =
        lookup-append_Lacks e.span a _ no_a
        ∙ lookup-append_at e.span (complete e kids) (flat kids) b no_kids in
      let rest : remove e.span behind_kids ≡ a ++ (flat kids ++ b) =
        remove-append_Lacks e.span a _ no_a
        ∙ ap (◌++◌ a) (remove-append_at e.span (complete e kids) (flat kids) b no_kids) in
      rw (found, ready, rest, ih)

take_children-flat :
    (k p lo : ℕ) (ts : Trees) (a b : List (ℕ × Node)) (f : Forest)
    → count ts ≤ k
    → Numbered p lo ts
    → Free lo (count ts) a
    → Apart lo (count ts) f.ready
    → take_children (take_fuel k) (roots ts) (record f { nodes = a ++ (flat ts ++ b) })
      ≡ some (ts, record f { nodes = a ++ b })
unfolding take_children
take_children-flat k p lo nil a b f h num free apart = refl
take_children-flat zero p lo (cons (tree e kids) ts) a b f h num free apart = absurd (omega arith)
take_children-flat (suc k) p lo (cons (tree e kids) ts) a b f h num free apart =
    let at : e.span ≡ lo = num.0 in
    let kids_out =
      take_children-flat k e.span (lo + 1) kids a (flat ts ++ b) f (omega arith) num.2
        (λ j x y. free j (omega arith) (omega arith))
        (All-map (λ r out. omega arith) f.ready apart) in
    let first =
      take_fuel-flat e kids a (flat ts ++ b) f k (free e.span (omega arith) (omega arith))
        (flat-Lacks e.span e.span (lo + 1) kids num.2 (omega arith))
        (filter-Apart e.span lo (count (cons (tree e kids) ts)) f.ready apart (omega arith)
          (omega arith))
        kids_out in
    let rest =
      take_children-flat (suc k) p (lo + 1 + count kids) ts a b f (omega arith) num.3
        (λ j x y. free j (omega arith) (omega arith))
        (All-map (λ r out. omega arith) f.ready apart) in
    rw (append_assoc (flat kids) ((e.span, complete e kids) ∷ flat ts) b, first, rest)

Apart-roots :
    (lo n p lo' : ℕ) (ts : Trees) → Numbered p lo' ts → lo + n ≤ lo' → Apart lo n (roots ts)
Apart-roots lo n p lo' nil num h = tt
Apart-roots lo n p lo' (cons (tree e kids) ts) num h =
    (omega (arith, num.0), Apart-roots lo n p (lo' + 1 + count kids) ts num.3 (omega arith))

length-flat : (ts : Trees) → length (flat ts) ≡ count ts
length-flat nil = refl
length-flat (cons (tree e kids) ts) = omega (
  arith,
  length-append (flat kids) ((e.span, complete e kids) ∷ flat ts),
  length-flat kids,
  length-flat ts,
)

take_tree-first :
    (p lo : ℕ) (e : Event) (kids ts : Trees) (f : Forest)
    → Numbered p lo (cons (tree e kids) ts)
    → take_tree e.span (record f { nodes = flat (cons (tree e kids) ts); ready = roots ts })
      ≡ some (some (tree e kids), record f { nodes = flat ts; ready = roots ts })
unfolding take_tree
take_tree-first p lo e kids ts f num =
    let f' : Forest = record f { ready = roots ts } in
    let enough : count kids ≤ length (flat (cons (tree e kids) ts)) =
      omega (arith, length-flat (cons (tree e kids) ts)) in
    let at : e.span ≡ lo = num.0 in
    take_fuel-flat e kids [] (flat ts) f' (length (flat (cons (tree e kids) ts))) tt
      (flat-Lacks e.span e.span (lo + 1) kids num.2 (omega arith))
      (filter-Apart e.span lo (1 + count kids) (roots ts)
        (Apart-roots lo (1 + count kids) p (lo + 1 + count kids) ts num.3 (omega arith))
        (omega arith) (omega arith))
      (take_children-flat _ e.span (lo + 1) kids [] (flat ts) f' enough num.2 (λ j x y. tt)
        (Apart-roots (lo + 1) (count kids) p (lo + 1 + count kids) ts num.3 (omega arith)))

drain_fuel-flat :
    (p lo : ℕ) (ts : Trees) (f : Forest)
    → Numbered p lo ts
    → drain_fuel (length (roots ts)) (roots ts) (record f { nodes = flat ts; ready = roots ts })
      ≡ some (ts, record f { nodes = []; ready = [] })
unfolding drain_fuel
drain_fuel-flat p lo nil f num = refl
drain_fuel-flat p lo (cons (tree e kids) ts) f num =
    rw (take_tree-first p lo e kids ts f num)
      (rw (drain_fuel-flat p (lo + 1 + count kids) ts f num.3))

settle_all-root :
    (clock : Event → ℕ × ℕ) (ts : Trees) (f : Forest)
    → settle_all clock 0 ts f ≡ record f { ready = f.ready ++ roots ts }
settle_all-root clock nil f = λ i. record f { ready = sym (append-nil f.ready) i }
settle_all-root clock (cons (tree e kids) ts) f =
    settle_all-root clock ts (settle clock 0 e f)
    ∙ (λ i. record f { ready = append_assoc f.ready (e.span ∷ []) (roots ts) i })

-- Whole calls that run one after another, nested to any depth: if their events are added to a new
-- forest in the order of completion (a child before its parent), with span ids given out in the
-- order in which calls begin, and all clock readings of the run within one grace window, then
-- `drain_roots` hands back exactly those call trees, in order, and the forest is empty.
pub drain_roots-feed :
    (clock : Event → ℕ × ℕ) (t0 grace lo : ℕ) (ts : Trees)
    → 0 < grace
    → ((e : Event) → t0 ≤ (clock e).1)
    → ((e : Event) → (clock e).0 < t0 + grace)
    → 0 < lo
    → Numbered 0 lo ts
    → drain_roots (feed clock (postorder ts) (with_grace grace)) ≡ some (ts, with_grace grace)
unfolding drain_roots
drain_roots-feed clock t0 grace lo ts some_grace late soon pos num =
    let fed = feed-Numbered clock t0 grace some_grace late soon 0 lo ts (with_grace grace) (
      unfold with_grace in
      record {
        numbered = num;
        older = pos;
        no_parent = tt;
        fresh_nodes = λ k a b. tt;
        fresh_waiting = λ k a b. tt;
        late_waiting = tt;
        same_grace = refl;
      }) in
    rw (fed, settle_all-root clock ts _)
      (unfold with_grace release in rw append-nil (drain_fuel-flat 0 lo ts (with_grace grace) num))
