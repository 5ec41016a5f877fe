-- ===== src/Memory/Solo.antt =====
-- What the methods of a node do when no other thread acts during them.
use transactional_data_struc.Base.{ℕ, true, false, ◌≡◌, some, [], update, ==_refl}
use transactional_data_struc.Effect.{World, ok}
use transactional_data_struc.Memory.{Ptr, Node, Heap, Shared}
use transactional_data_struc.Memory.Storage.{Local}
use transactional_data_struc.Memory.Nodes
use transactional_data_struc.Node.Word

abbrev pub Memory : Type 0 → Type 0
Memory I = World (Shared I) Local

module _ {I : Type 0} where
  abbrev pub with_heap : Memory I → Heap → Memory I
  with_heap w h = record w { shared = record w.shared { heap = h } }

  abbrev pub put_node : Memory I → Ptr → Node → Memory I
  put_node w p n = with_heap w (update w.shared.heap p (some n))

module _ {I : Type 0} (w : Memory I) (p : Ptr) {n : Node} (at : w.shared.heap p ≡ some n) where
  pub is_locked-run : Nodes.is_locked p w [] ≡ ok (Word.is_locked n.word) w []
  unfolding Nodes.is_locked
  is_locked-run = rw at

  pub try_lock-run :
      Word.is_locked n.word ≡ false
      → Nodes.try_lock p w [] ≡ ok true (put_node w p (record n { word = Word.locked n.word })) []
  unfolding Nodes.try_lock
  try_lock-run free = rw (at, free, at, ==_refl)

  pub unlock-run :
      Word.is_locked n.word ≡ true
      → Nodes.unlock p w [] ≡ ok tt (put_node w p (record n { word = Word.unlocked n.word })) []
  unfolding Nodes.unlock
  unlock-run held = rw (at, held, at, ==_refl)

  pub set_version-run :
      (v : ℕ)
      → Word.is_locked n.word ≡ true
      → Nodes.set_version p v w []
        ≡ ok tt (put_node w p (record n { word = Word.set_version v n.word })) []
  unfolding Nodes.set_version
  set_version-run v held = rw (at, held, at)
