-- ===== src/Queue/Local.antt =====
-- datatypes/LocalQueue.h: the queue that a transaction keeps of what it has enqueued. A method
-- answers the new value of its members.
use transactional_data_struc.Base.{ℕ, Bool, true, false, ◌==◌, if◌then◌else◌}
use transactional_data_struc.Effect.{pure, raise, empty_queue, ◌>>=◌, ◌>>◌}
use transactional_data_struc.Queue.{LocalQueue, QueueOp, is_null, up, down, load, store, make}

-- The constructor.
abbrev pub empty : LocalQueue
empty = record {
  first_deq = true;
  node_to_deq = 0;
  is_locked_by_me = false;
  head = 0;
  tail = 0;
  size = 0;
}

unfoldable pub enqueue : ℕ → LocalQueue → QueueOp LocalQueue
enqueue val l = do
  node ← make (record { val = val; prev = l.tail; next = 0 })
  let l' : LocalQueue = record l { size = up l.size }
  if is_null l.tail
      then pure (record l' { tail = node; head = node })
      else do store l.tail λ n. record n { next = node }; pure (record l' { tail = node })

unfoldable pub dequeue : LocalQueue → QueueOp (ℕ × LocalQueue)
dequeue l = if is_null l.head then raise empty_queue else do
  temp ← load l.head
  let l' : LocalQueue = record l { head = temp.next; size = down l.size }
  if is_null temp.next
      then pure (temp.val, record l' { tail = 0 })
      else do store temp.next λ n. record n { prev = 0 }; pure (temp.val, l')

unfoldable pub is_empty : LocalQueue → Bool
is_empty l = l.size == 0
