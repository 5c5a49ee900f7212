-- ===== src/Profiler/CallTree/Counts.antt =====
-- What the counts of the tree are, of rthas/src/profiler.rs.
use rthas.Prelude.{
  ℕ, ◌+◌, ◌-◌, ◌%◌, ◌<◌, u64_mod, ◌≡◌, refl, sym, ap, subst, ◌∙◌, inl, inr, false, Option, none,
  some, List, [], ◌∷◌, arith, if◌then◌else◌, Bool-cases, Text, text_eq,
}
use rthas.Prelude.{text_eq→eq, text_eq_self, text_eq_comm}
use rthas.Profiler.Stacks.{Stacks}
use rthas.Profiler.CallTree.{
  Node, node, Children, leaf, child, default_node, count_of, change_child, add, sum_counts,
  self_count, add_all, tree_of,
}

abbrev pub find_child : Text → Children → Node
find_child name leaf = default_node
find_child name (child other t children) =
    if text_eq other name then t else find_child name children

-- The node that a path leads to; where there is none, a node that counts nothing.
abbrev pub node_at : List Text → Node → Node
node_at [] t = t
node_at (name ∷ path) (node count children) = node_at path (find_child name children)

-- What of a stack lies behind a path.
abbrev pub behind : List Text → List Text → Option (List Text)
behind [] stack = some stack
behind (name ∷ path) [] = none
behind (name ∷ path) (head ∷ stack) = if text_eq head name then behind path stack else none

abbrev if_behind : Option (List Text) → ℕ → Node → Node
if_behind none n t = t
if_behind (some rest) n t = add rest n t

find_child-change :
    (name head : Text) (change : Node → Node) (children : Children)
    → find_child name (change_child head change children)
      ≡ (if text_eq head name then change (find_child head children) else find_child name children)
unfolding change_child
find_child-change name head change leaf = refl
find_child-change name head change (child other t children) =
    elim (Bool-cases (text_eq other head)) [
      | inl same ↦
          let e : other ≡ head = text_eq→eq other head same in
          rw (e, text_eq_self head)
            (elim (Bool-cases (text_eq head name)) [
              | inl here ↦ rw here refl
              | inr away ↦ rw away refl
            ])
      | inr apart ↦ rw apart (elim (Bool-cases (text_eq other name)) [
        | inl there ↦
            let e : other ≡ name = text_eq→eq other name there in
            let other_head : text_eq head name ≡ false =
              text_eq_comm head name ∙ subst (λ o. text_eq o head ≡ false) e apart in
            rw (there, other_head) refl
        | inr away ↦ rw away (find_child-change name head change children)
      ])
    ]

sum_counts-change :
    (name : Text) (n : ℕ) (change : Node → Node) (children : Children)
    → ((t : Node) → count_of (change t) ≡ (count_of t + n) % u64_mod)
    → sum_counts (change_child name change children) ≡ (sum_counts children + n) % u64_mod
unfolding sum_counts change_child
sum_counts-change name n change leaf h = omega (arith, h default_node)
sum_counts-change name n change (child other t children) h =
    elim (Bool-cases (text_eq other name)) [
      | inl same ↦ rw same (omega (arith, h t))
      | inr apart ↦ rw apart (omega (arith, sum_counts-change name n change children h))
    ]

count_of-add :
    (stack : List Text) (n : ℕ) (t : Node) → count_of (add stack n t) ≡ (count_of t + n) % u64_mod
unfolding add
count_of-add [] n (node count children) = refl
count_of-add (head ∷ rest) n (node count children) = refl

abbrev kids : Node → ℕ
kids (node count children) = sum_counts children

-- Only a stack that goes on counts for a child.
abbrev below : List Text → ℕ → ℕ
below [] n = 0
below (head ∷ rest) n = n

kids-add :
    (stack : List Text) (n : ℕ) (t : Node)
    → kids (add stack n t) % u64_mod ≡ (kids t + below stack n) % u64_mod
unfolding add
kids-add [] n (node count children) = omega arith
kids-add (head ∷ rest) n (node count children) =
    omega (arith, sum_counts-change head n (add rest n) children (count_of-add rest n))

node_at-add :
    (path stack : List Text) (n : ℕ) (t : Node)
    → node_at path (add stack n t) ≡ if_behind (behind path stack) n (node_at path t)
unfolding add
node_at-add [] stack n t = refl
node_at-add (name ∷ path) [] n (node count children) = refl
node_at-add (name ∷ path) (head ∷ stack) n (node count children) =
    rw (find_child-change name head (add stack n) children) (elim (Bool-cases (text_eq head name)) [
      | inl same ↦
          let e : head ≡ name = text_eq→eq head name same in
          rw same (
            node_at-add path stack n (find_child head children)
            ∙ ap (λ k. if_behind (behind path stack) n (node_at path (find_child k children))) e)
      | inr apart ↦ rw apart refl
    ])

-- The samples of the stacks that begin with a path, of those that go on behind it, and of those that
-- end with it.
abbrev weigh : Option (List Text) → ℕ → ℕ
weigh none n = 0
weigh (some rest) n = n

abbrev weigh_more : Option (List Text) → ℕ → ℕ
weigh_more none n = 0
weigh_more (some rest) n = below rest n

abbrev weigh_end : Option (List Text) → ℕ → ℕ
weigh_end none n = 0
weigh_end (some []) n = n
weigh_end (some (name ∷ rest)) n = 0

abbrev pub begun : List Text → Stacks → ℕ
begun path [] = 0
begun path ((stack, n) ∷ stacks) = weigh (behind path stack) n + begun path stacks

abbrev gone_on : List Text → Stacks → ℕ
gone_on path [] = 0
gone_on path ((stack, n) ∷ stacks) = weigh_more (behind path stack) n + gone_on path stacks

abbrev pub ended : List Text → Stacks → ℕ
ended path [] = 0
ended path ((stack, n) ∷ stacks) = weigh_end (behind path stack) n + ended path stacks

begun-split :
    (path : List Text) (stacks : Stacks)
    → begun path stacks ≡ gone_on path stacks + ended path stacks
begun-split path [] = refl
begun-split path ((stack, n) ∷ stacks) =
    omega (arith, one (behind path stack), begun-split path stacks)
  where
    one : (o : Option (List Text)) → weigh o n ≡ weigh_more o n + weigh_end o n
    one none = refl
    one (some []) = omega arith
    one (some (name ∷ rest)) = omega arith

if_behind-counts :
    (o : Option (List Text)) (n : ℕ) (t : Node)
    → (count_of (if_behind o n t) % u64_mod ≡ (count_of t + weigh o n) % u64_mod)
      × (kids (if_behind o n t) % u64_mod ≡ (kids t + weigh_more o n) % u64_mod)
if_behind-counts none n t = (omega arith, omega arith)
if_behind-counts (some rest) n t = (omega (arith, count_of-add rest n t), kids-add rest n t)

add_all-counts :
    (path : List Text) (stacks : Stacks) (t : Node)
    → (count_of (node_at path (add_all stacks t)) % u64_mod
        ≡ (count_of (node_at path t) + begun path stacks) % u64_mod)
      × (kids (node_at path (add_all stacks t)) % u64_mod
          ≡ (kids (node_at path t) + gone_on path stacks) % u64_mod)
unfolding add_all
add_all-counts path [] t = (omega arith, omega arith)
add_all-counts path ((stack, n) ∷ stacks) t =
    let (count, more) = add_all-counts path stacks (add stack n t) in
    let (count1, more1) = if_behind-counts (behind path stack) n (node_at path t) in
    let here = node_at-add path stack n t in
    (omega (arith, count, ap count_of here, count1), omega (arith, more, ap kids here, more1))

-- The counts that a tree shows are 64 bits.
if_behind-fits :
    (o : Option (List Text)) (n : ℕ) (t : Node)
    → count_of t < u64_mod
    → count_of (if_behind o n t) < u64_mod
if_behind-fits none n t fits = fits
if_behind-fits (some rest) n t fits = omega (arith, count_of-add rest n t)

add_all-fits :
    (path : List Text) (stacks : Stacks) (t : Node)
    → count_of (node_at path t) < u64_mod
    → count_of (node_at path (add_all stacks t)) < u64_mod
unfolding add_all
add_all-fits path [] t fits = fits
add_all-fits path ((stack, n) ∷ stacks) t fits = add_all-fits path stacks (add stack n t) (
    subst (λ u. count_of u < u64_mod) (sym (node_at-add path stack n t))
      (if_behind-fits (behind path stack) n (node_at path t) fits))

sum_counts-fits : (children : Children) → sum_counts children < u64_mod
unfolding sum_counts
sum_counts-fits leaf = omega arith
sum_counts-fits (child name t children) = omega arith

kids-fits : (t : Node) → kids t < u64_mod
kids-fits (node count children) = sum_counts-fits children

node_at-default : (path : List Text) → node_at path default_node ≡ default_node
node_at-default [] = refl
node_at-default (name ∷ path) = node_at-default path

self_count-kids : (t : Node) → self_count t ≡ (count_of t + (u64_mod - kids t)) % u64_mod
unfolding self_count
self_count-kids (node count children) = refl

-- In the tree of any stacks, and for every path of names from the root, the node that the path
-- leads to counts the samples of all the stacks that begin with it, and as its own those of the
-- stacks that end with it, both modulo 2^64 (the 64 bits of an i64); where no node is, both
-- numbers are 0.
pub tree_of-counts :
    (stacks : Stacks) (path : List Text)
    → (count_of (node_at path (tree_of stacks)) ≡ begun path stacks % u64_mod)
      × (self_count (node_at path (tree_of stacks)) ≡ ended path stacks % u64_mod)
unfolding tree_of sum_counts
tree_of-counts stacks path =
    let (count, more) = add_all-counts path stacks default_node in
    let none_yet = node_at-default path in
    let t = node_at path (add_all stacks default_node) in
    let fits : count_of t < u64_mod =
      add_all-fits path stacks default_node (omega (arith, ap count_of none_yet)) in
    (
      omega (arith, count, ap count_of none_yet),
      omega (
        arith,
        kids-fits t,
        count,
        more,
        ap count_of none_yet,
        ap kids none_yet,
        self_count-kids t,
        begun-split path stacks,
      ),
    )
