-- ===== src/LinkedList/Tx.antt =====
-- datatypes/LinkedList.h: `put`, `putIfAbsent`, `remove`, `get` and `containsKey`. In a transaction
-- they read through the write set and record what is to be written; without one they are the
-- singleton operations.
use transactional_data_struc.Base.{
  ℕ, Bool, true, false, Option, none, some, if◌then◌else◌, is_some, find,
}
use transactional_data_struc.Effect.{pure, local_read, local_write, ◌>>=◌, ◌>>◌}
use transactional_data_struc.Memory.{Ptr, Op, null, get_new_node}
use transactional_data_struc.Memory.Storage.{
  put_into_write_set, add_to_index_add, add_to_index_remove, read_set_emplace,
}
use transactional_data_struc.Index.{IndexOps}
use transactional_data_struc.LinkedList.{LinkedList, load_next, load_val}
use transactional_data_struc.LinkedList.Find.{get_val, get_next, find_node}
use transactional_data_struc.LinkedList.Singleton.{
  store_next, put_singleton, put_if_absent_singleton, remove_singleton, get_singleton,
}

module _ {I : Type 0} where
  -- The branch of `put` where the key exists.
  unfoldable pub put_found : ℕ → Ptr → Op I (Option ℕ)
  put_found val next = do
    we ← local_read λ l. find next l.write_set
    elim we [
      | some e ↦ local_write (put_into_write_set next e.next (some val) e.deleted)
      | none ↦ do q ← load_next next; local_write (put_into_write_set next q (some val) false)
    ]
    local_write (read_set_emplace next)
    load_val next

  -- The value that the write set has for the node, else the node's own.
  unfoldable pub current_val : Ptr → Op I (Option ℕ)
  current_val next = do
    we ← local_read λ l. find next l.write_set
    elim we [ some e ↦ pure e.val | none ↦ load_val next ]

module _ {I : Type 0} (list : LinkedList) where
  -- The branch of `put` and `putIfAbsent` where the key is new.
  unfoldable pub put_new : ℕ → ℕ → Ptr → Ptr → Op I (Option ℕ)
  put_new key val pred next = do
    n ← get_new_node key val
    store_next n next
    v ← get_val pred
    local_write (put_into_write_set pred n v false)
    local_write (add_to_index_add list.self n)
    local_write (read_set_emplace pred)
    pure none

  -- The branch of `remove` where the key exists.
  unfoldable pub remove_found : Ptr → Ptr → Op I (Option ℕ)
  unfolding current_val
  remove_found pred next = do
    q ← get_next next
    v ← get_val pred
    local_write (put_into_write_set pred q v false)
    w ← get_val next
    local_write (put_into_write_set next null w true)
    local_write (read_set_emplace next)
    local_write (add_to_index_remove list.self next)
    current_val next

module _ (X : IndexOps) (list : LinkedList) (fuel : ℕ) where
  unfoldable pub put_tx : ℕ → ℕ → Op X.State (Option ℕ)
  put_tx key val = do
    local_write λ l. record l { read_only = false }
    (found, pred, next) ← find_node X list fuel key
    if found then put_found val next else put_new list key val pred next

  unfoldable pub put : ℕ → ℕ → Op X.State (Option ℕ)
  unfolding put_tx
  put key val = do
    tx ← local_read λ l. l.tx
    if tx then put_tx key val else put_singleton X list fuel key val

  -- Where the key exists the source has `return next.val;`, and a wrapper has no member `val`: the
  -- value of the node is meant, `next->m_val`.
  unfoldable pub put_if_absent_tx : ℕ → ℕ → Op X.State (Option ℕ)
  put_if_absent_tx key val = do
    local_write λ l. record l { read_only = false }
    (found, pred, next) ← find_node X list fuel key
    if found
        then (do local_write (read_set_emplace next); load_val next)
        else put_new list key val pred next

  unfoldable pub put_if_absent : ℕ → ℕ → Op X.State (Option ℕ)
  unfolding put_if_absent_tx
  put_if_absent key val = do
    tx ← local_read λ l. l.tx
    if tx then put_if_absent_tx key val else put_if_absent_singleton X list fuel key val

  unfoldable pub remove_tx : ℕ → Op X.State (Option ℕ)
  remove_tx key = do
    local_write λ l. record l { read_only = false }
    (found, pred, next) ← find_node X list fuel key
    local_write (read_set_emplace pred)
    if found then remove_found list pred next else pure none

  unfoldable pub remove : ℕ → Op X.State (Option ℕ)
  unfolding remove_tx
  remove key = do
    tx ← local_read λ l. l.tx
    if tx then remove_tx key else remove_singleton X list fuel key

  unfoldable pub get_tx : ℕ → Op X.State (Option ℕ)
  get_tx key = do
    (found, pred, next) ← find_node X list fuel key
    local_write (read_set_emplace pred)
    if found then current_val next else pure none

  unfoldable pub get : ℕ → Op X.State (Option ℕ)
  unfolding get_tx
  get key = do tx ← local_read λ l. l.tx; if tx then get_tx key else get_singleton X list fuel key

  unfoldable pub contains_key : ℕ → Op X.State Bool
  contains_key key = do v ← get key; pure (is_some v)
