-- ===== src/Transaction.antt =====
-- TX.h: a transaction begins, and ends by locking what it writes, validating what it has read,
-- taking a new version, writing, unlocking, and telling the indexes. `TxAbortException` reports
-- that it was given up. The parts for queues are commented out in the source.
pub mod Lock
pub mod Commit
pub mod Validate
pub mod IndexUpdate
pub mod Stamp
pub mod End
pub mod Attempt
pub mod Abort
pub mod Rollback
pub mod Publish
pub mod Program
pub mod InTx
pub mod Session
pub mod Undo
pub mod Atomic
pub mod Among
pub mod OwnNode
use transactional_data_struc.Base.{
  ℕ, Bool, true, false, not, ◌&&◌, none, List, [], ◌∷◌, ◌==◌, ltb, has, if◌then◌else◌,
}
use transactional_data_struc.Effect.{
  pure, assert, raise, local_read, local_write, ◌>>=◌, ◌>>◌, tx_abort,
}
use transactional_data_struc.Memory.{Ptr, Op, get_version, increment_and_get_version, retire_node}
use transactional_data_struc.Memory.Storage.{WriteElement, clear}
use transactional_data_struc.Memory.Nodes.{
  try_lock, unlock, is_locked, node_version, is_singleton, set_singleton, set_deleted, set_version,
}
use transactional_data_struc.Index.{IndexOps}
use transactional_data_struc.LinkedList.{index_add, index_remove}
use transactional_data_struc.LinkedList.Singleton.{store_next, store_val}

module _ {I : Type 0} where
  abbrev pub for_each : {A : Type 0} → (A → Op I (Unit {0})) → List A → Op I (Unit {0})
  for_each f [] = pure tt
  for_each f (x ∷ xs) = do f x; for_each f xs

  -- `TXbegin`
  unfoldable pub tx_begin : Op I (Unit {0})
  tx_begin = do
    local_write λ l. record l { tx = true }
    version ← get_version
    local_write λ l. record l { read_version = version }

  -- Lock the nodes of the write set, up to the first that is busy. The answer is whether to abort,
  -- and `lockedLNodes`.
  unfoldable pub lock_write_set : List (Ptr × WriteElement) → Op I (Bool × List Ptr)
  lock_write_set [] = pure (false, [])
  lock_write_set ((node, _) ∷ ws) = do
    got ← try_lock node
    if got
        then (do (abort, locked) ← lock_write_set ws; pure (abort, node ∷ locked))
        else pure (true, [])

  -- One node of the read set: whether the transaction must abort.
  unfoldable pub validate_node : List Ptr → Ptr → Op I Bool
  validate_node locked node = do
    taken ← (if has node locked then pure false else is_locked node)
    if taken then pure true else do
      read_version ← local_read λ l. l.read_version
      version ← node_version node
      if ltb read_version version then pure true else do
        version' ← node_version node
        same ← (if version' == read_version then is_singleton node else pure false)
        if same
            then (do _ ← increment_and_get_version; set_singleton node false; pure true)
            else pure false

  unfoldable pub validate_read_set : List Ptr → List Ptr → Op I Bool
  validate_read_set locked [] = pure false
  validate_read_set locked (node ∷ rs) = do
    abort ← validate_node locked node
    if abort then pure true else validate_read_set locked rs

  unfoldable pub new_write_version : Op I ℕ
  new_write_version = do
    version ← increment_and_get_version
    read_version ← local_read λ l. l.read_version
    assert (ltb read_version version)
    local_write λ l. record l { write_version = version }
    pure version

  -- What the write set has for one node is written.
  unfoldable pub commit_node : ℕ → Ptr × WriteElement → Op I (Unit {0})
  commit_node version (node, we) = do
    store_next node we.next
    store_val node we.val
    if we.deleted then (do set_deleted node true; store_val node none) else pure tt
    set_version node version
    set_singleton node false

  unfoldable pub commit_write_set : ℕ → List (Ptr × WriteElement) → Op I (Unit {0})
  commit_write_set version = for_each (commit_node version)

  -- The phases of `TXend`. The answer of the first is whether to abort, and `lockedLNodes`.
  unfoldable pub lock_phase : Op I (Bool × List Ptr)
  lock_phase = do
    tx ← local_read λ l. l.tx
    ws ← local_read λ l. l.write_set
    if tx then lock_write_set ws else pure (true, [])

  unfoldable pub validate_phase : Bool → List Ptr → Op I Bool
  validate_phase abort locked = do
    rs ← local_read λ l. l.read_set
    if abort then pure true else validate_read_set locked rs

  -- The answer is whether the transaction has written.
  unfoldable pub commit_phase : Bool → Op I Bool
  commit_phase abort = do
    read_only ← local_read λ l. l.read_only
    ws ← local_read λ l. l.write_set
    if not abort && not read_only
        then (do version ← new_write_version; commit_write_set version ws; pure true)
        else pure false

module _ (X : IndexOps) where
  unfoldable pub add_all : ℕ × List Ptr → Op X.State (Unit {0})
  add_all (list, nodes) = for_each (index_add X list) nodes

  unfoldable pub remove_all : ℕ × List Ptr → Op X.State (Unit {0})
  remove_all (list, nodes) = for_each (λ node. do index_remove X list node; retire_node node) nodes

  unfoldable pub update_index : Op X.State (Unit {0})
  unfolding add_all remove_all
  update_index = do
    added ← local_read λ l. l.index_add
    for_each add_all added
    removed ← local_read λ l. l.index_remove
    for_each remove_all removed

  -- `TXend`
  unfoldable pub tx_end : Op X.State Bool
  tx_end = do
    (busy, locked) ← lock_phase
    abort ← validate_phase busy locked
    commits ← commit_phase abort
    for_each unlock locked
    if commits then update_index else pure tt
    local_write clear
    if abort then raise tx_abort else pure true

module _ {I : Type 0} where
  -- `handle_abort`: the nodes that were to be added go back.
  unfoldable pub handle_abort : Op I (Unit {0})
  handle_abort = do
    added ← local_read λ l. l.index_add
    for_each (λ e. for_each retire_node e.1) added
    local_write clear
