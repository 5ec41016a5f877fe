-- ===== src/Queue/Singleton.antt =====
-- datatypes/Queue.h: the operations outside a transaction. Each waits for the lock: `fuel` bounds
-- its rounds. `dequeueSingleton` ends in `return;`: the value that it has read is lost, and `none` stands for
-- the return without a value.
use transactional_data_struc.Base.{
  ℕ, Option, none, zero, suc, ◌^◌, Bool, true, not, ◌||◌, leb, ◌==◌, if◌then◌else◌,
}
use transactional_data_struc.Effect.{pure, stuck, raise, empty_queue, ◌>>=◌, ◌>>◌}
use transactional_data_struc.Queue.{QueueOp, Ptr, is_null, up, down, read, write, load, store, make}
use transactional_data_struc.Queue.Word.{set_version, set_singleton, try_lock, unlock}

-- `setVersion(m_tx->getVersion()); setSingleton(true); unlock();`
unfoldable pub release : QueueOp (Unit {0})
release = do version ← read (λ q. q.gvc); set_version version; set_singleton true; unlock

-- What `enqueueSingleton` does with the lock.
unfoldable pub append : Ptr → QueueOp (Unit {0})
append node = do
  tail ← read (λ q. q.tail)
  if is_null tail
      then (do write λ q. record q { tail = node }; write λ q. record q { head = node })
      else (do
        store tail λ n. record n { next = node }
        store node λ n. record n { prev = tail }
        write λ q. record q { tail = node })
  write λ q. record q { size = up q.size }

enqueue_loop : ℕ → Ptr → QueueOp (Unit {0})
enqueue_loop zero node = stuck
enqueue_loop (suc fuel) node =
    let retry = enqueue_loop fuel node in
    do got ← try_lock; if got then (do append node; release) else retry

unfoldable pub enqueue_singleton : ℕ → ℕ → QueueOp (Unit {0})
unfolding enqueue_loop append
enqueue_singleton fuel val = do
  node ← make (record { val = val; prev = 0; next = 0 })
  enqueue_loop fuel node

-- What `dequeueSingleton` does with the lock, where there is a first node.
unfoldable pub detach : Ptr → QueueOp ℕ
detach head = do
  node ← load head
  write λ q. record q { head = node.next }
  if is_null node.next
      then (write λ q. record q { tail = 0 })
      else store node.next λ n. record n { prev = 0 }
  write λ q. record q { size = down q.size }
  pure node.val

unfoldable pub dequeue_singleton : ℕ → QueueOp (Option ℕ)
unfolding detach release
dequeue_singleton zero = stuck
dequeue_singleton (suc fuel) =
    let retry = dequeue_singleton fuel in
    do
      got ← try_lock
      if not got then retry else do
        head ← read (λ q. q.head)
        if is_null head
            then (do unlock; raise empty_queue)
            else do ret ← detach head; release; pure none

-- `ret <= 0`
abbrev is_not_positive : ℕ → Bool
is_not_positive n = (n == 0) || leb (2 ^ 31) n

unfoldable pub is_empty_singleton : ℕ → QueueOp Bool
unfolding release
is_empty_singleton zero = stuck
is_empty_singleton (suc fuel) =
    let retry = is_empty_singleton fuel in
    do
      got ← try_lock
      if not got then retry else do ret ← read (λ q. q.size); release; pure (is_not_positive ret)
