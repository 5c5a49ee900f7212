-- ===== src/Tree/Take/Totality.antt =====
-- `take` and `drain_roots` of rthas/src/tree.rs always return.
use rthas.Prelude.{
  ℕ, zero, suc, ◌≤◌, ◌<◌, ◌≡◌, refl, not, Option, none, some, List, [], ◌∷◌, arith, ◌==◌, length,
  filter, length-filter-le, lookup, remove,
}
use rthas.Event.{Event}
use rthas.Tree.{Node, Forest, release}
use rthas.Tree.Take.{
  Taken, ◌>>=◌, take_children, take_event, take_node, take_fuel, take_tree, drain_fuel, drain_roots,
  orphans,
}

-- A run that returns, with at most `n` nodes and `m` ready roots left.
abbrev pub Leaves {ℓ} : {A : Type ℓ} → ℕ → ℕ → Option (A × Forest) → Type 0
Leaves n m none = ⊥
Leaves n m (some (a, f)) = (length f.nodes ≤ n) × (length f.ready ≤ m)

Leaves-le {ℓ} :
    {A : Type ℓ} (n m n' m' : ℕ) (r : Option (A × Forest))
    → n ≤ n'
    → m ≤ m'
    → Leaves n m r
    → Leaves n' m' r
Leaves-le n m n' m' none a b h = h
Leaves-le n m n' m' (some (x, f)) a b h = omega arith

Leaves-bind {ℓ κ} :
    {A : Type ℓ} {B : Type κ} (n m m' : ℕ) (r : Option (A × Forest))
    (k : A × Forest → Option (B × Forest))
    → Leaves n m r
    → ((a : A) (f : Forest) → length f.nodes ≤ n → length f.ready ≤ m → Leaves n m' (k (a, f)))
    → Leaves n m' (r >>= k)
Leaves-bind n m m' none k h g = absurd h
Leaves-bind n m m' (some (a, f)) k h g = g a f h.0 h.1

length-remove-le {ℓ} : {V : Type ℓ} (k : ℕ) (m : List (ℕ × V)) → length (remove k m) ≤ length m
length-remove-le k [] = omega arith
length-remove-le k ((j, v) ∷ m) = ground (arith, length-remove-le k m)

length-remove-lt {ℓ} :
    {V : Type ℓ} (k : ℕ) (m : List (ℕ × V)) (v : V)
    → lookup k m ≡ some v
    → length (remove k m) < length m
length-remove-lt k [] v h = cc
length-remove-lt k ((j, w) ∷ m) v h = ground (arith, length-remove-lt k m v, length-remove-le k m)

-- `go` returns on every forest of fewer than `n` nodes.
abbrev Total : ℕ → (ℕ → Forest → Taken) → Type 0
Total n go =
    (c : ℕ) (f : Forest) → length f.nodes < n → Leaves (length f.nodes) (length f.ready) (go c f)

module _ (n : ℕ) (go : ℕ → Forest → Taken) (total : Total n go) where
  take_children-Leaves :
      (cs : List ℕ) (f : Forest)
      → length f.nodes < n
      → Leaves (length f.nodes) (length f.ready) (take_children go cs f)
  unfolding take_children
  take_children-Leaves [] f h = omega arith
  take_children-Leaves (c ∷ cs) f h =
      Leaves-bind (length f.nodes) (length f.ready) (length f.ready) (go c f) _ (total c f h)
        λ t f' a b.
          Leaves-bind (length f.nodes) (length f.ready) (length f.ready) (take_children go cs f') _
            (Leaves-le (length f'.nodes) (length f'.ready) _ _ (take_children go cs f') a b
              (take_children-Leaves cs f' (omega arith)))
            λ ts f'' a' b'. (a', b')

  take_event-Leaves :
      (cs : List ℕ) (o : Option Event) (f : Forest)
      → length f.nodes < n
      → Leaves (length f.nodes) (length f.ready) (take_event go cs o f)
  unfolding take_event
  take_event-Leaves cs none f h = omega arith
  take_event-Leaves cs (some e) f h =
      Leaves-bind (length f.nodes) (length f.ready) (length f.ready) (take_children go cs f) _
        (take_children-Leaves cs f h) λ ts f' a b. (a, b)

  take_node-Leaves :
      (o : Option Node) (root : ℕ) (f : Forest)
      → lookup root f.nodes ≡ o
      → length f.nodes ≤ n
      → Leaves (length f.nodes) (length f.ready) (take_node go o root f)
  unfolding take_node
  take_node-Leaves none root f e h = omega arith
  take_node-Leaves (some r) root f e h =
      let less = length-remove-lt root f.nodes r e in
      let f' : Forest = record f { nodes = remove root f.nodes } in
      Leaves-le (length f'.nodes) (length f'.ready) _ _ (take_event go r.children r.event f')
        (omega arith) (omega arith) (take_event-Leaves r.children r.event f' (omega arith))

take_fuel-Leaves :
    (k root : ℕ) (f : Forest)
    → length f.nodes < k
    → Leaves (length f.nodes) (length f.ready) (take_fuel k root f)
unfolding take_fuel
take_fuel-Leaves zero root f h = elim h [ ]
take_fuel-Leaves (suc k) root f h =
    let f' : Forest = record f { ready = filter (λ r. not (r == root)) f.ready } in
    Leaves-le (length f'.nodes) (length f'.ready) _ _
      (take_node (take_fuel k) (lookup root f.nodes) root f') (omega arith)
      (length-filter-le (λ (r : ℕ). not (r == root)) f.ready)
      (take_node-Leaves k (take_fuel k) (take_fuel-Leaves k) (lookup root f.nodes) root f' refl
        (omega arith))

-- `take` of any span of any forest returns within the fuel of one more than the nodes that there
-- are, and neither adds a node nor a ready root.
pub take_tree-Leaves :
    (root : ℕ) (f : Forest) → Leaves (length f.nodes) (length f.ready) (take_tree root f)
unfolding take_tree
take_tree-Leaves root f = take_fuel-Leaves (suc (length f.nodes)) root f (omega arith)

drain_fuel-Leaves :
    (k : ℕ) (ready : List ℕ) (f : Forest)
    → f.ready ≡ ready
    → length ready ≤ k
    → Leaves (length f.nodes) 0 (drain_fuel k ready f)
unfolding drain_fuel
drain_fuel-Leaves k [] f e h = (omega arith, rw e (omega arith))
drain_fuel-Leaves zero (root ∷ rest) f e h = elim h [ ]
drain_fuel-Leaves (suc k) (root ∷ rest) f e h =
    let f' : Forest = record f { ready = rest } in
    Leaves-bind (length f.nodes) (length rest) 0 (take_tree root f') _ (take_tree-Leaves root f')
      λ t f'' a b.
        Leaves-bind (length f.nodes) 0 0 (drain_fuel k f''.ready f'') _
          (Leaves-le (length f''.nodes) 0 _ _ (drain_fuel k f''.ready f'') a (omega arith)
            (drain_fuel-Leaves k f''.ready f'' refl (omega arith)))
          λ ts f''' a' b'. (a', b')

-- `drain_roots` returns on every forest, in at most as many rounds as there are roots to hand
-- out, and leaves no root in the queue.
pub drain_roots-Leaves : (f : Forest) → Leaves (length f.nodes) 0 (drain_roots f)
unfolding drain_roots release
drain_roots-Leaves f =
    let f' = release (orphans f.waiting) (record f { waiting = [] }) in
    drain_fuel-Leaves (length f'.ready) f'.ready f' refl (omega arith)
