-- ===== src/LinkedList/Singleton.antt =====
-- datatypes/LinkedList.h: the operations outside a transaction. Each locks the nodes that it
-- changes and starts over where a node is busy or has changed; `retry` is the next round.
use transactional_data_struc.Base.{
  ℕ, zero, suc, Bool, true, not, Option, none, some, ◌==◌, if◌then◌else◌,
}
use transactional_data_struc.Effect.{pure, stuck, ◌>>=◌, ◌>>◌}
use transactional_data_struc.Memory.{
  Ptr, Op, is_null, load, store, get_version, get_new_node, retire_node,
}
use transactional_data_struc.Memory.Nodes.{
  is_deleted, is_locked_or_deleted, try_lock, unlock, set_singleton, set_version,
  set_version_and_singleton, set_version_and_singleton_no_lock_assert,
  set_version_and_deleted_and_singleton,
}
use transactional_data_struc.Index.{IndexOps}
use transactional_data_struc.LinkedList.{LinkedList, load_next, load_val, index_add, index_remove}
use transactional_data_struc.LinkedList.Find.{find_node_singleton}

module _ {I : Type 0} where
  abbrev pub store_next : Ptr → Ptr → Op I (Unit {0})
  store_next p q = store p λ n. record n { next = q }

  abbrev pub store_val : Ptr → Option ℕ → Op I (Unit {0})
  store_val p v = store p λ n. record n { val = v }

  -- `next->m_key != key || node != next || node->isDeleted()`
  abbrev pub is_stale : ℕ → Ptr → Ptr → Op I Bool
  is_stale key next node = do
    n ← load next
    if not (n.key == key)
        then pure true
        else if not (node == next)
        then pure true
        else is_deleted node

  -- `pred->isDeleted() || next != pred->m_next`
  abbrev pub is_pred_stale : Ptr → Ptr → Op I Bool
  is_pred_stale pred next = do
    gone ← is_deleted pred
    if gone then pure true else do q ← load_next pred; pure (not (next == q))

  -- `pred->isDeleted() || pred->m_next.is_not_null()`
  abbrev pub is_end_stale : Ptr → Op I Bool
  is_end_stale pred = do
    gone ← is_deleted pred
    if gone then pure true else do q ← load_next pred; pure (not (is_null q))

  -- The branch of `putSingleton` where the key exists.
  unfoldable pub overwrite : ℕ → ℕ → Ptr → Ptr → Op I (Option ℕ) → Op I (Option ℕ)
  overwrite key val pred next retry = do
    node ← load_next pred
    got ← try_lock node
    if got
        then (do
          stale ← is_stale key next node
          if stale then (do unlock node; retry) else do
            ret ← load_val node
            store_val node (some val)
            set_singleton node true
            version ← get_version
            set_version node version
            unlock node
            pure ret)
        else retry

module _ (X : IndexOps) (list : LinkedList) where
  -- The branch where `next` has a larger key: a new node between the two.
  unfoldable pub insert_before : ℕ → ℕ → Ptr → Ptr → Op X.State (Option ℕ) → Op X.State (Option ℕ)
  insert_before key val pred next retry = do
    got ← try_lock pred
    if got
        then (do
          stale ← is_pred_stale pred next
          if stale then (do unlock pred; retry) else do
            n ← get_new_node key val
            q ← load_next pred
            store_next n q
            store_next pred n
            version ← get_version
            set_version_and_singleton_no_lock_assert n version true
            unlock pred
            index_add X list.self n
            pure none)
        else retry

  -- The branch where all keys are smaller, in `putSingleton`.
  unfoldable pub append : ℕ → ℕ → Ptr → Op X.State (Option ℕ) → Op X.State (Option ℕ)
  append key val pred retry = do
    got ← try_lock pred
    if got
        then (do
          stale ← is_end_stale pred
          if stale then (do unlock pred; retry) else do
            n ← get_new_node key val
            store_next pred n
            version ← get_version
            set_version_and_singleton_no_lock_assert n version true
            unlock pred
            index_add X list.self n
            pure none)
        else retry

  -- The same branch of `putIfAbsentSingleton`, which leaves the version of the new node alone.
  unfoldable pub append_unversioned : ℕ → ℕ → Ptr → Op X.State (Option ℕ) → Op X.State (Option ℕ)
  append_unversioned key val pred retry = do
    got ← try_lock pred
    if got
        then (do
          stale ← is_end_stale pred
          if stale then (do unlock pred; retry) else do
            n ← get_new_node key val
            store_next pred n
            unlock pred
            index_add X list.self n
            pure none)
        else retry

  unfoldable pub put_singleton : ℕ → ℕ → ℕ → Op X.State (Option ℕ)
  put_singleton zero key val = stuck
  put_singleton (suc fuel) key val =
      let retry = put_singleton fuel key val in
      do
        (found, pred, next) ← find_node_singleton X list fuel key
        if found
            then overwrite key val pred next retry
            else if not (is_null next)
            then insert_before key val pred next retry
            else append key val pred retry

  -- The value is that of the wrapped node, which `next->key` and `node.val` mean.
  unfoldable pub put_if_absent_singleton : ℕ → ℕ → ℕ → Op X.State (Option ℕ)
  put_if_absent_singleton zero key val = stuck
  put_if_absent_singleton (suc fuel) key val =
      let retry = put_if_absent_singleton fuel key val in
      do
        (found, pred, next) ← find_node_singleton X list fuel key
        if found
            then (do
              node ← load_next pred
              n ← load next
              stale ←
                  (if not (n.key == key)
                    then pure true
                    else if not (node == next)
                    then pure true
                    else is_locked_or_deleted node)
              if stale then retry else load_val node)
            else if not (is_null next)
            then insert_before key val pred next retry
            else append_unversioned key val pred retry

  -- The part of `removeSingleton` that holds both locks.
  unfoldable pub unlink : Ptr → Ptr → Op X.State (Option ℕ)
  unlink pred next = do
    ret ← load_val next
    store_val next none
    q ← load_next pred
    r ← load_next q
    store_next pred r
    version ← get_version
    set_version_and_deleted_and_singleton next version true true
    set_version_and_singleton pred version true
    unlock next
    unlock pred
    index_remove X list.self next
    retire_node next
    pure ret

  -- The locking around it.
  unfoldable pub remove_at : Ptr → Ptr → Op X.State (Option ℕ) → Op X.State (Option ℕ)
  unfolding unlink
  remove_at pred next retry = do
    got ← try_lock pred
    if got
        then (do
          stale ← is_pred_stale pred next
          if stale then (do unlock pred; retry) else do
            got' ← try_lock next
            if got' then unlink pred next else (do unlock pred; retry))
        else retry

  unfoldable pub remove_singleton : ℕ → ℕ → Op X.State (Option ℕ)
  remove_singleton zero key = stuck
  remove_singleton (suc fuel) key =
      let retry = remove_singleton fuel key in
      do
        (found, pred, next) ← find_node_singleton X list fuel key
        if not found then pure none else remove_at pred next retry

  unfoldable pub get_singleton : ℕ → ℕ → Op X.State (Option ℕ)
  get_singleton fuel key = do
    (found, pred, next) ← find_node_singleton X list fuel key
    if found then load_val next else pure none
