-- ===== src/Uprobes.antt =====
-- rthas-ebpf/src/tree.rs: call trees from the enter and exit events of uprobes, thread by thread.
pub mod Threads
pub mod Calls
use rthas.Prelude.{
  ℕ, ◌-◌, Bool, true, false, Option, none, some, List, [], ◌∷◌, ◌==◌, if◌then◌else◌, lookup, upsert,
  update,
}

mutual
  pub data Node : Type 0 where
    node : ℕ → ℕ → Nodes → Node

  pub data Nodes : Type 0 where
    nil : Nodes
    cons : Node → Nodes → Nodes

-- `children.push(node)`.
abbrev pub push_child : Nodes → Node → Nodes
push_child nil n = cons n nil
push_child (cons m ms) n = cons m (push_child ms n)

pub record Frame : Type 0 where
  pub id : ℕ
  pub start_ns : ℕ
  pub children : Nodes

-- Each stack has its newest frame first.
pub record Forest : Type 0 where
  pub by_tid : List (ℕ × List Frame)

pub record Completed : Type 0 where
  pub node : Node
  pub is_root : Bool
  pub tid : ℕ

unfoldable pub enter : ℕ → ℕ → ℕ → Forest → Forest
enter tid id ts f =
    let frame : Frame = record { id = id; start_ns = ts; children = nil } in
    record f { by_tid = upsert tid (λ stack. frame ∷ stack) (frame ∷ []) f.by_tid }

-- `while stack.last().is_some_and(|f| f.id != id) { stack.pop(); }`.
unfoldable pub unwind : ℕ → List Frame → List Frame
unwind id [] = []
unwind id (frame ∷ stack) =
    let rest = unwind id stack in if frame.id == id then frame ∷ stack else rest

-- The node goes to the caller, where there is one.
abbrev pub deliver : ℕ → Node → List Frame → List Frame × Option Completed
deliver tid n [] = ([], some (record { node = n; is_root = true; tid = tid }))
deliver tid n (parent ∷ stack) = (
  record parent { children = push_child parent.children n } ∷ stack,
  some (record { node = n; is_root = false; tid = tid }),
)

-- The frame on top is popped, and has the id, unless there is none left.
abbrev pub pop_frame : ℕ → ℕ → ℕ → List Frame → List Frame × Option Completed
pop_frame tid id ts [] = ([], none)
pop_frame tid id ts (frame ∷ stack) =
    if frame.id == id
    then deliver tid (node id (ts - frame.start_ns) frame.children) stack
    else (stack, none)

unfoldable pub exit_stack : ℕ → ℕ → ℕ → List Frame → List Frame × Option Completed
unfolding unwind
exit_stack tid id ts stack = pop_frame tid id ts (unwind id stack)

unfoldable pub exit : ℕ → ℕ → ℕ → Forest → Forest × Option Completed
unfolding exit_stack
exit tid id ts f = elim (lookup tid f.by_tid) [
  | none ↦ (f, none)
  | some stack ↦
      let (stack', done) = exit_stack tid id ts stack in
      (record f { by_tid = update tid (λ s. stack') f.by_tid }, done)
]
