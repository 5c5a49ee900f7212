-- ===== src/Tree/Take.antt =====
-- `take`, `take_ready` and `drain_roots` of rthas/src/tree.rs: collecting the complete subtrees.
pub mod Totality
use rthas.Prelude.{
  ℕ, zero, suc, ◌+◌, not, Option, none, some, List, [], ◌∷◌, ◌++◌, map, ◌==◌, length, filter,
  lookup, remove,
}
use rthas.Event.{Event}
use rthas.Tree.{Node, Waiting, Forest, release}

mutual
  pub data Tree : Type 0 where
    tree : Event → Trees → Tree

  pub data Trees : Type 0 where
    nil : Trees
    cons : Tree → Trees → Trees

abbrev pub cons_some : Option Tree → Trees → Trees
cons_some none ts = ts
cons_some (some t) ts = cons t ts

infixl 5 ◌>>=◌
abbrev pub ◌>>=◌ {ℓ κ} : {A : Type ℓ} {B : Type κ} → Option A → (A → Option B) → Option B
none >>= f = none
some a >>= f = f a

-- A subtree that was taken, if there was one, and the forest left; `none` if the fuel ran out.
abbrev pub Taken : Type 0
Taken = Option (Option Tree × Forest)

-- The loop over `node.children`; `go` is the recursive call.
unfoldable pub take_children : (ℕ → Forest → Taken) → List ℕ → Forest → Option (Trees × Forest)
take_children go [] f = some (nil, f)
take_children go (c ∷ cs) f = do
  (t, f') ← go c f
  (ts, f'') ← take_children go cs f'
  some (cons_some t ts, f'')

unfoldable pub take_event : (ℕ → Forest → Taken) → List ℕ → Option Event → Forest → Taken
unfolding take_children
take_event go children none f = some (none, f)
take_event go children (some e) f = do
  (ts, f') ← take_children go children f
  some (some (tree e ts), f')

unfoldable pub take_node : (ℕ → Forest → Taken) → Option Node → ℕ → Forest → Taken
unfolding take_event
take_node go none root f = some (none, f)
take_node go (some n) root f =
    take_event go n.children n.event (record f { nodes = remove root f.nodes })

unfoldable pub take_fuel : ℕ → ℕ → Forest → Taken
unfolding take_node
take_fuel zero root f = none
take_fuel (suc k) root f =
    take_node (take_fuel k) (lookup root f.nodes) root
      (record f { ready = filter (λ r. not (r == root)) f.ready })

-- Every nested call has removed a node before it.
unfoldable pub take_tree : ℕ → Forest → Taken
unfolding take_fuel
take_tree root f = take_fuel (suc (length f.nodes)) root f

-- The `while let` loop of `drain_roots`: fuel is the length of the ready queue.
unfoldable pub drain_fuel : ℕ → List ℕ → Forest → Option (Trees × Forest)
drain_fuel k [] f = some (nil, f)
drain_fuel zero (root ∷ rest) f = none
drain_fuel (suc k) (root ∷ rest) f = do
  (t, f') ← take_tree root (record f { ready = rest })
  (ts, f'') ← drain_fuel k f'.ready f'
  some (cons_some t ts, f'')

abbrev pub orphans : List (ℕ × List Waiting) → List ℕ
orphans [] = []
orphans ((p, ws) ∷ m) = map (λ (w : Waiting). w.span) ws ++ orphans m

unfoldable pub drain_roots : Forest → Option (Trees × Forest)
unfolding drain_fuel take_tree release
drain_roots f =
    let f' = release (orphans f.waiting) (record f { waiting = [] }) in
    drain_fuel (length f'.ready) f'.ready f'
