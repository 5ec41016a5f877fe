-- ===== src/Memory.antt =====
-- The memory that a transaction works on: list nodes on a heap, the global version clock of TX.h,
-- the index of each list, and the nodes handed to `RecordMgr::retire_node`.
-- A `LNodeWrapper` is an address: `m_node`, with 0 for the null pointer. Its flag `deleted` is set
-- to false by every constructor and by `delete_wrapped_node`, and by nothing to true.
pub mod Storage
pub mod Nodes
pub mod Solo
pub mod Interference
pub mod Owned
pub mod Exclusion
pub mod Manager
use transactional_data_struc.Base.{
  ℕ, ◌+◌, ◌%◌, ◌^◌, Bool, true, false, Option, none, some, List, [], ◌∷◌, ◌++◌, ◌==◌, if◌then◌else◌,
  update,
}
use transactional_data_struc.Effect.{Cmd, atomic}
use Storage.{Local}

abbrev pub Ptr : Type 0
Ptr = ℕ

abbrev pub null : Ptr
null = 0

abbrev pub is_null : Ptr → Bool
is_null p = p == null

abbrev pub is_wrapper_deleted : Ptr → Bool
is_wrapper_deleted p = false

-- `LNode`, with keys and values of type `size_t`, as main.cpp has them.
pub record Node : Type 0 where
  pub key : ℕ
  pub val : Option ℕ
  pub next : Ptr
  pub word : ℕ

abbrev pub Heap : Type 0
Heap = Ptr → Option Node

-- `I` is the type of an index's own state.
pub record Shared (I : Type 0) : Type 0 where
  pub heap : Heap
  pub fresh : Ptr
  pub gvc : ℕ
  pub index : ℕ → I
  pub retired : List Ptr

abbrev pub Op : Type 0 → Type 0 → Type 0
Op I A = Cmd (Shared I) Local A

module _ {I : Type 0} where
  -- A node that the pointer leads to, read as a whole; the callers use one field of it.
  abbrev pub load : Ptr → Op I Node
  load p = atomic λ h. elim (h.heap p) [ none ↦ none | some n ↦ some (n, h) ]

  -- A field of the node is written; what is written may not depend on the node.
  abbrev pub store : Ptr → (Node → Node) → Op I (Unit {0})
  store p f = atomic λ h. elim (h.heap p) [
    | none ↦ none
    | some n ↦ some (tt, record h { heap = update h.heap p (some (f n)) })
  ]

  -- `compare_exchange_strong` on `m_version_mask`.
  abbrev pub compare_exchange : Ptr → ℕ → ℕ → Op I Bool
  compare_exchange p expected desired = atomic λ h. elim (h.heap p) [
    | none ↦ none
    | some n ↦
        if n.word == expected
        then some (true, record h { heap = update h.heap p (some (record n { word = desired })) })
        else some (false, h)
  ]

  -- `TX::getVersion` and `TX::incrementAndGetVersion`, on 64 bits.
  unfoldable pub get_version : Op I ℕ
  get_version = atomic λ h. some (h.gvc, h)

  unfoldable pub increment_and_get_version : Op I ℕ
  increment_and_get_version =
      atomic λ h. let v = (h.gvc + 1) % 2 ^ 64 in some (v, record h { gvc = v })

  -- `RecordMgr::get_new_node`
  unfoldable pub get_new_node : ℕ → ℕ → Op I Ptr
  get_new_node key val = atomic λ h. some (
    h.fresh,
    record h {
      heap =
          update h.heap h.fresh
            (some (record { key = key; val = some val; next = null; word = 0 }));
      fresh = h.fresh + 1;
    },
  )

  -- `RecordMgr::retire_node`
  unfoldable pub retire_node : Ptr → Op I (Unit {0})
  retire_node p = atomic λ h. some (tt, record h { retired = h.retired ++ (p ∷ []) })
