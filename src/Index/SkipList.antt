-- ===== src/Index/SkipList.antt =====
-- nodes/Index.h: the skip list. Each index node points to a node of the list, to the right, and
-- down to the next level; a head node has a level and points up too. A `std::shared_ptr` is an
-- address on a heap of index nodes, with 0 for the empty one.
-- An access to what threads share is one step, and so is a body that holds `m_lock`.
pub mod Walk
pub mod Levels
pub mod Update
pub mod Row
pub mod Passage
pub mod Height
use transactional_data_struc.Base.{
  ℕ, ◌+◌, ◌==◌, Bool, true, false, not, Option, none, some, if◌then◌else◌, update, is_some,
}
use transactional_data_struc.Effect.{Cmd, atomic, pure, assert, ◌>>=◌, ◌>>◌}
use transactional_data_struc.Memory.{Ptr, null, is_null, is_wrapper_deleted, Node, Heap}

-- `IndexNode` and `HeadIndex`; `level` and `up` are of a head alone.
pub record IndexNode : Type 0 where
  pub node : Ptr
  pub down : Ptr
  pub right : Ptr
  pub level : ℕ
  pub up : Ptr

-- `Index`, with the heap of its nodes; `seed` is the generator's.
pub record SkipList : Type 0 where
  pub nodes : Ptr → Option IndexNode
  pub fresh : Ptr
  pub top : Ptr
  pub bottom : Ptr
  pub seed : ℕ

-- What an operation of an index sees.
pub record View : Type 0 where
  pub list : Heap
  pub index : SkipList

abbrev pub IndexOp : Type 0 → Type 0
IndexOp A = Cmd View (Unit {0}) A

abbrev pub set_nodes : View → (Ptr → Option IndexNode) → View
set_nodes v ns = record v { index = record v.index { nodes = ns } }

-- The constructor: one head at level 0, over the dummy node.
unfoldable pub new : Ptr → ℕ → SkipList
new head_node seed = record {
  nodes =
      update (λ _. none) 1
        (some (record { node = head_node; down = null; right = null; level = 0; up = null }));
  fresh = 2;
  top = 1;
  bottom = 1;
  seed = seed;
}

abbrev pub load : Ptr → IndexOp IndexNode
load p = atomic λ v. elim (v.index.nodes p) [ none ↦ none | some n ↦ some (n, v) ]

abbrev pub load_list : Ptr → IndexOp Node
load_list p = atomic λ v. elim (v.list p) [ none ↦ none | some n ↦ some (n, v) ]

abbrev pub load_right : Ptr → IndexOp Ptr
load_right p = do n ← load p; pure n.right

abbrev pub store_right : Ptr → Ptr → IndexOp (Unit {0})
store_right p q = atomic λ v. elim (v.index.nodes p) [
  | none ↦ none
  | some n ↦ some (tt, set_nodes v (update v.index.nodes p (some (record n { right = q }))))
]

-- `std::make_shared`
abbrev pub make : IndexNode → IndexOp Ptr
make n = atomic λ v. some (
  v.index.fresh,
  record v {
    index = record v.index {
      nodes = update v.index.nodes v.index.fresh (some n);
      fresh = v.index.fresh + 1;
    };
  },
)

-- `m_node.is_deleted() || !m_node->m_val`, for the node of an index node.
abbrev pub is_dead : IndexNode → IndexOp Bool
is_dead n =
    if is_wrapper_deleted n.node
    then pure true
    else do m ← load_list n.node; pure (not (is_some m.val))

-- `casRight`
unfoldable pub cas_right : Ptr → Ptr → Ptr → IndexOp Bool
cas_right p cmp val = atomic λ v. elim (v.index.nodes p) [
  | none ↦ none
  | some n ↦
      if n.right == cmp
      then some (true, set_nodes v (update v.index.nodes p (some (record n { right = val }))))
      else some (false, v)
]

unfoldable pub link : Ptr → Ptr → Ptr → IndexOp Bool
unfolding cas_right
link p succ new_succ = do
  store_right new_succ succ
  n ← load p
  dead ← is_dead n
  if dead then pure false else cas_right p succ new_succ

unfoldable pub unlink : Ptr → Ptr → IndexOp Bool
unfolding cas_right
unlink p succ = if is_null succ then pure true else do
  n ← load p
  dead ← is_dead n
  if dead then pure false else do right ← load_right succ; cas_right p succ right
