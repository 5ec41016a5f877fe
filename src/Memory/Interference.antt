-- ===== src/Memory/Interference.antt =====
-- nodes/LNode.h: `tryLock` and `unlock` while other threads act. The schedule says what they do
-- before each access.
use transactional_data_struc.Base.{true, false, ◌≡◌, some, ◌∷◌, update, arith}
use transactional_data_struc.Effect.{Schedule, ok}
use transactional_data_struc.Memory.{Ptr, Node, Shared}
use transactional_data_struc.Memory.Solo.{Memory}
use transactional_data_struc.Memory.Nodes
use transactional_data_struc.Node.Word

module _ {I : Type 0} where
  -- What the lock of `p` in memory `h` is when it is taken, and what is left.
  pub record Taken (h h' : Shared I) (p : Ptr) : Type 0 where
    pub node : Node
    pub at : h.heap p ≡ some node
    pub free : Word.is_locked node.word ≡ false
    pub after :
        h'
        ≡ record h { heap = update h.heap p (some (record node { word = Word.locked node.word })) }

  -- Whatever the other threads do before the two accesses of tryLock, if it answers true then
  -- the lock was free at its second access, and all it did was to take it.
  pub try_lock-Taken :
      (w v : Memory I) (p : Ptr) (first second : Shared I → Shared I) (es ds : Schedule (Shared I))
      → Nodes.try_lock p w (first ∷ second ∷ es) ≡ ok true v ds
      → Taken (second (first w.shared)) v.shared p × (v.local ≡ w.local) × (ds ≡ es)
  unfolding Nodes.try_lock
  try_lock-Taken w v p first second es ds h = ground arith
