-- ===== src/LinkedList.antt =====
-- datatypes/LinkedList.h: a sorted list of nodes behind a sentinel, `head`. Each public operation
-- runs as a singleton, for itself, or as a part of the transaction of its thread.
-- A `while (true)` loop takes the number of its rounds; `out_of_fuel` is a run that makes more.
pub mod Find
pub mod Singleton
pub mod Tx
pub mod Walk
pub mod Search
pub mod Steps
pub mod Locals
pub mod Refine
pub mod RefineGet
pub mod RefineRemove
pub mod Whole
pub mod Words
pub mod Unseen
pub mod Own
pub mod Overlay
use transactional_data_struc.Base.{ℕ, false, Option, none, some, if◌then◌else◌, update, ltb}
use transactional_data_struc.Effect.{pure, atomic, raise, local_read, local_write, ◌>>=◌, ◌>>◌}
use transactional_data_struc.Effect
use transactional_data_struc.Memory.{Ptr, Op, load, increment_and_get_version}
use transactional_data_struc.Memory.Nodes.{is_locked, node_version, is_same_version_and_singleton}
use transactional_data_struc.Index.{IndexOps}

-- `self` is the address of the list object, by which the maps of a transaction and the store of
-- indexes know it.
pub record LinkedList : Type 0 where
  pub self : ℕ
  pub head : Ptr

module _ {I : Type 0} where
  -- `safe_get_next`, and a plain read of `m_next`
  abbrev pub load_next : Ptr → Op I Ptr
  load_next p = do n ← load p; pure n.next

  abbrev pub load_val : Ptr → Op I (Option ℕ)
  load_val p = do n ← load p; pure n.val

  -- `m_tx->get_local_transaction().TX = false; throw TxAbortException();`
  abbrev pub abort_tx : {A : Type 0} → Op I A
  abort_tx = local_write (λ l. record l { tx = false }) >> raise Effect.tx_abort

  -- The checks that `getPred` and `getNext` make on a node before they trust it.
  unfoldable pub check_node : Ptr → Op I (Unit {0})
  check_node p = do
    busy ← is_locked p
    if busy then abort_tx else do
      version ← node_version p
      read_version ← local_read λ l. l.read_version
      if ltb read_version version then abort_tx else do
        same ← is_same_version_and_singleton p read_version
        if same then (do _ ← increment_and_get_version; abort_tx) else pure tt

module _ (X : IndexOps) where
  -- The index of the list, as commands.
  abbrev pub index_get_pred : LinkedList → ℕ → Op X.State Ptr
  index_get_pred list key = atomic λ h. elim (X.get_pred key h.heap (h.index list.self)) [
    | none ↦ none
    | some (p, i) ↦ some (p, record h { index = update h.index list.self i })
  ]

  abbrev pub index_add : ℕ → Ptr → Op X.State (Unit {0})
  index_add list node = atomic λ h. elim (X.add node h.heap (h.index list)) [
    | none ↦ none
    | some i ↦ some (tt, record h { index = update h.index list i })
  ]

  abbrev pub index_remove : ℕ → Ptr → Op X.State (Unit {0})
  index_remove list node = atomic λ h. elim (X.remove node h.heap (h.index list)) [
    | none ↦ none
    | some i ↦ some (tt, record h { index = update h.index list i })
  ]
