-- ===== src/LinkedList/Find.antt =====
-- datatypes/LinkedList.h: `getPredSingleton`, `getVal`, `getPred`, `getNext`, `find_node_singelton`
-- and `find_node`. A search answers whether the key is there, the node before its place, and the
-- node at its place.
use transactional_data_struc.Base.{
  ℕ, zero, suc, Bool, true, false, not, Option, none, some, ◌==◌, ltb, if◌then◌else◌, find,
}
use transactional_data_struc.Effect.{pure, stuck, assert, local_read, ◌>>=◌, ◌>>◌}
use transactional_data_struc.Memory.{Ptr, Op, null, is_null, load}
use transactional_data_struc.Memory.Nodes.{is_locked, is_deleted, is_locked_or_deleted}
use transactional_data_struc.Memory.Storage.{WriteElement}
use transactional_data_struc.Index.{IndexOps}
use transactional_data_struc.LinkedList.{
  LinkedList, load_next, load_val, abort_tx, check_node, index_get_pred,
}

abbrev pub is_mine_deleted : Option WriteElement → Bool
is_mine_deleted none = false
is_mine_deleted (some e) = e.deleted

abbrev pub Found : Type 0
Found = Bool × Ptr × Ptr

module _ {I : Type 0} where
  unfoldable pub get_val : Ptr → Op I (Option ℕ)
  get_val n = do
    we ← local_read λ l. find n l.write_set
    elim we [ some e ↦ pure e.val | none ↦ load_val n ]

  unfoldable pub get_next : Ptr → Op I Ptr
  unfolding check_node
  get_next n = do
    we ← local_read λ l. find n l.write_set
    elim we [
      | some e ↦ pure e.next
      | none ↦ do
        busy ← is_locked n
        if busy then abort_tx else do
          next ← load_next n
          check_node n
          if is_null next then pure next else do check_node next; pure next
    ]

  -- `next->isLocked() || next != pred->m_next`
  abbrev pub has_moved : Ptr → Ptr → Op I Bool
  has_moved pred next = do
    busy ← is_locked next
    if busy then pure true else do q ← load_next pred; pure (not (q == next))

  -- The inner loop of `find_node_singelton`; `none` asks for a new start.
  unfoldable pub walk : ℕ → ℕ → Ptr → Ptr → Op I (Option Found)
  walk zero key pred next = stuck
  walk (suc fuel) key pred next = if is_null next then pure (some (false, pred, null)) else do
    gone ← is_locked_or_deleted next
    if gone then pure none else do
      n ← load next
      if n.key == key
          then (do node ← load_next pred; pure (some (true, pred, node)))
          else if ltb key n.key
          then pure (some (false, pred, next))
          else do
            moved ← has_moved pred next
            if moved then pure none else do
              pred' ← load_next pred
              if is_null pred' then pure none else do
                next' ← load_next pred'
                gone' ← is_locked_or_deleted pred'
                if gone' then pure none else walk fuel key pred' next'

  -- The loop of `find_node`.
  unfoldable pub find_from : ℕ → ℕ → Ptr → Ptr → Op I Found
  find_from zero key pred next = stuck
  find_from (suc fuel) key pred next = if is_null next then pure (false, pred, next) else do
    n ← load next
    if n.key == key
        then pure (true, pred, next)
        else if ltb key n.key
        then pure (false, pred, next)
        else do next' ← get_next next; find_from fuel key next next'

module _ (X : IndexOps) (list : LinkedList) where
  -- The loop of `getPredSingleton`.
  unfoldable pub skip_gone : ℕ → Ptr → Op X.State Ptr
  skip_gone zero pred = stuck
  skip_gone (suc fuel) pred = do
    gone ← is_locked_or_deleted pred
    if gone
        then (if pred == list.head
            then pure list.head
            else do n ← load pred; pred' ← index_get_pred X list n.key; skip_gone fuel pred')
        else pure pred

  unfoldable pub get_pred_singleton : ℕ → ℕ → Op X.State Ptr
  get_pred_singleton fuel key = do pred ← index_get_pred X list key; skip_gone fuel pred

  unfoldable pub find_node_singleton : ℕ → ℕ → Op X.State Found
  find_node_singleton zero key = stuck
  find_node_singleton (suc fuel) key = do
    pred ← get_pred_singleton fuel key
    busy ← is_locked pred
    if busy then find_node_singleton fuel key else do
      next ← load_next pred
      gone ← is_locked_or_deleted pred
      if gone then find_node_singleton fuel key else do
        found ← walk fuel key pred next
        elim found [ some r ↦ pure r | none ↦ find_node_singleton fuel key ]

  -- The loop of `getPred`: nodes that this transaction or another has deleted are left behind.
  unfoldable pub skip_deleted : ℕ → Ptr → Op X.State Ptr
  skip_deleted zero pred = stuck
  skip_deleted (suc fuel) pred = do
    check_node pred
    we ← local_read λ l. find pred l.write_set
    gone ← (if is_mine_deleted we then pure true else is_deleted pred)
    if gone
        then (do
          assert (not (pred == list.head))
          n ← load pred
          pred' ← index_get_pred X list n.key
          skip_deleted fuel pred')
        else pure pred

  unfoldable pub get_pred : ℕ → ℕ → Op X.State Ptr
  get_pred fuel key = do pred ← index_get_pred X list key; skip_deleted fuel pred

  unfoldable pub find_node : ℕ → ℕ → Op X.State Found
  find_node fuel key = do
    pred ← get_pred fuel key
    next ← get_next pred
    find_from fuel key pred next
