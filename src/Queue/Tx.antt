-- ===== src/Queue/Tx.antt =====
-- datatypes/Queue.h: the operations in a transaction. They work on `q_map`, a copy of the map of
-- local queues, and the copy ends with the operation.
use transactional_data_struc.Base.{
  ℕ, ◌+◌, ◌%◌, ◌^◌, Bool, false, not, ◌&&◌, Option, none, some, List, ltb, ◌==◌, if◌then◌else◌,
  find, assign,
}
use transactional_data_struc.Effect.{pure, raise, tx_abort, local_read, local_write, ◌>>=◌, ◌>>◌}
use transactional_data_struc.Queue.{LocalQueue, QueueOp, is_null, read, write, load}
use transactional_data_struc.Queue.Word.{get_version, is_singleton, try_lock, unlock}
use transactional_data_struc.Queue.Local
use transactional_data_struc.Queue.Singleton.{
  enqueue_singleton, dequeue_singleton, is_empty_singleton,
}

abbrev abort : {A : Type 0} → QueueOp A
abort = do local_write λ t. record t { tx = false }; raise tx_abort

unfoldable pub validate_tx_safe : QueueOp (Unit {0})
validate_tx_safe = do
  read_version ← local_read λ t. t.read_version
  version ← get_version
  if ltb read_version version then abort else do
    version' ← get_version
    single ← (if read_version == version' then is_singleton else pure false)
    if single then (do write λ q. record q { gvc = (q.gvc + 1) % 2 ^ 64 }; abort) else pure tt

-- `q_map.find(this)`, or a new local queue.
abbrev local_queue : ℕ → List (ℕ × LocalQueue) → LocalQueue
local_queue self m = elim (find self m) [ none ↦ Local.empty | some l ↦ l ]

unfoldable pub enqueue_tx : ℕ → QueueOp (Unit {0})
unfolding validate_tx_safe
enqueue_tx val = do
  validate_tx_safe
  q_map ← local_read λ t. t.queue_map
  self ← read (λ q. q.self)
  l_queue ← Local.enqueue val (local_queue self q_map)
  q_map' ← pure (assign self l_queue q_map)
  pure tt

unfoldable pub enqueue : ℕ → ℕ → QueueOp (Unit {0})
unfolding enqueue_tx
enqueue fuel val = do
  tx ← local_read λ t. t.tx
  if tx then enqueue_tx val else enqueue_singleton fuel val

-- The node that a dequeue is to take: the head first, then the next.
unfoldable pub advance : LocalQueue → QueueOp LocalQueue
advance l =
    if l.first_deq
    then (do head ← read (λ q. q.head); pure (record l { first_deq = false; node_to_deq = head }))
    else if is_null l.node_to_deq
    then pure l
    else do n ← load l.node_to_deq; pure (record l { node_to_deq = n.next })

unfoldable pub dequeue_tx : QueueOp ℕ
unfolding validate_tx_safe advance
dequeue_tx = do
  validate_tx_safe
  got ← try_lock
  if not got then abort else do
    q_map ← local_read λ t. t.queue_map
    self ← read (λ q. q.self)
    l_queue ← advance (local_queue self q_map)
    if not (is_null l_queue.node_to_deq)
        then (do
          n ← load l_queue.node_to_deq
          q_map' ← pure (assign self l_queue q_map)
          unlock
          pure n.val)
        else (do
          q_map' ← pure (assign self l_queue q_map)
          unlock
          (ret, l_queue') ← Local.dequeue l_queue
          pure ret)

unfoldable pub dequeue : ℕ → QueueOp (Option ℕ)
unfolding dequeue_tx
dequeue fuel = do
  tx ← local_read λ t. t.tx
  if tx then (do ret ← dequeue_tx; pure (some ret)) else dequeue_singleton fuel

abbrev is_positive : ℕ → Bool
is_positive n = ltb 0 n && ltb n (2 ^ 31)

unfoldable pub is_empty_tx : QueueOp Bool
unfolding validate_tx_safe
is_empty_tx = do
  validate_tx_safe
  got ← try_lock
  if not got then abort else do
    size ← read (λ q. q.size)
    if is_positive size then (do unlock; pure false) else do
      q_map ← local_read λ t. t.queue_map
      self ← read (λ q. q.self)
      l_queue ← pure (local_queue self q_map)
      q_map' ← pure (assign self l_queue q_map)
      unlock
      pure (Local.is_empty l_queue)

unfoldable pub is_empty : ℕ → QueueOp Bool
unfolding is_empty_tx
is_empty fuel = do tx ← local_read λ t. t.tx; if tx then is_empty_tx else is_empty_singleton fuel
