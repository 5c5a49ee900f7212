-- ===== src/Profiler/CallTree.antt =====
-- `Node` of rthas/src/profiler.rs: the tree of the frames, with a count at each: an `i64`, by
-- its 64 bits, which `+` and `-` wrap. The `HashMap` of children is an association list in the order
-- of insertion.
pub mod Counts
use rthas.Prelude.{ℕ, ◌+◌, ◌-◌, ◌%◌, u64_mod, List, [], ◌∷◌, if◌then◌else◌, Text, text_eq}
use rthas.Profiler.Stacks.{Stacks}

mutual
  pub data Node : Type 0 where
    node : ℕ → Children → Node

  pub data Children : Type 0 where
    leaf : Children
    child : Text → Node → Children → Children

abbrev pub default_node : Node
default_node = node 0 leaf

abbrev pub count_of : Node → ℕ
count_of (node count children) = count

abbrev pub children_of : Node → Children
children_of (node count children) = children

-- `entry(name).or_default()`, and a change to what it is.
unfoldable pub change_child : Text → (Node → Node) → Children → Children
change_child name change leaf = child name (change default_node) leaf
change_child name change (child other t children) =
    if text_eq other name
    then child other (change t) children
    else child other t (change_child name change children)

unfoldable pub add : List Text → ℕ → Node → Node
unfolding change_child
add [] n (node count children) = node ((count + n) % u64_mod) children
add (head ∷ rest) n (node count children) =
    node ((count + n) % u64_mod) (change_child head (add rest n) children)

unfoldable pub sum_counts : Children → ℕ
sum_counts leaf = 0
sum_counts (child name t children) = (count_of t + sum_counts children) % u64_mod

-- The difference wraps: what is taken off is below 2^64.
unfoldable pub self_count : Node → ℕ
unfolding sum_counts
self_count (node count children) = (count + (u64_mod - sum_counts children)) % u64_mod

-- The loop of `render_text` over the stacks.
unfoldable pub add_all : Stacks → Node → Node
unfolding add
add_all [] root = root
add_all ((stack, n) ∷ stacks) root = add_all stacks (add stack n root)

unfoldable pub tree_of : Stacks → Node
unfolding add_all
tree_of stacks = add_all stacks default_node
