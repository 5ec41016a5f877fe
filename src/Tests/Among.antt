-- ===== src/Tests/Among.antt =====
-- TX.h: a commit over the list of `Setup` while another thread works on the sentinel.
use transactional_data_struc.Base.{
  ◌+◌, ◌≡◌, refl, sym, subst, true, false, some, [], ◌∷◌, has, update, update_ne, ==→eq, arith, map,
}
use transactional_data_struc.Effect.{Schedule, ok}
use transactional_data_struc.Memory.{Ptr, Node, Shared}
use transactional_data_struc.Memory.Solo.{Memory, put_node}
use transactional_data_struc.Memory.Owned.{AllSpare}
use transactional_data_struc.Node.Word
use transactional_data_struc.Index.Dummy.{DummyIndex}
use transactional_data_struc.Transaction.Lock.{WriteSet, keys, IsFree, IsHeld, NodesAre}
use transactional_data_struc.Transaction.Among.{
  write_and_unlock, published, write_and_unlock-Written,
}
use transactional_data_struc.Tests.Setup.{memory, head_node, five}

abbrev writes : WriteSet
writes = (2, record { next = 0; val = some 51; deleted = false }) ∷ []

abbrev locked_five : Node
locked_five = record five { word = Word.lock_mask }

abbrev locked : Memory DummyIndex
locked = put_node memory 2 locked_five

-- The other thread locks the sentinel and moves the clock.
abbrev other : Shared DummyIndex → Shared DummyIndex
other h = record h {
  heap = update h.heap 1 (some (record head_node { word = Word.lock_mask }));
  gvc = h.gvc + 1;
}

abbrev moves : Schedule (Shared DummyIndex)
moves = other ∷ other ∷ other ∷ []

two_or_none : (q : Ptr) → has q (2 ∷ []) ≡ true → q ≡ 2
two_or_none q i = ==→eq q 2 (ground arith)

moves-AllSpare : AllSpare (2 ∷ []) moves
moves-AllSpare = (spares, (spares, (spares, tt)))
  where
    spares : (h : Shared DummyIndex) (q : Ptr) → has q (2 ∷ []) ≡ true → (other h).heap q ≡ h.heap q
    spares h q i = update_ne h.heap 1 _ q (λ e. let s = two_or_none q i in absurd (omega arith))

locked-IsHeld : NodesAre IsHeld locked.shared.heap (2 ∷ [])
unfolding update Word.is_locked
locked-IsHeld p i =
    subst (λ q. (n : Node) × (locked.shared.heap q ≡ some n) × IsHeld n) (sym (two_or_none p i))
      (locked_five, refl, refl)

write_and_unlock-Written_example :
    (v : Memory DummyIndex) × (ds : Schedule (Shared DummyIndex)) × (write_and_unlock 5 writes
        locked moves
      ≡ ok tt v ds)
    × (map v.shared.heap (keys writes) ≡ map (published 5 writes locked.shared.heap) (keys writes))
    × NodesAre IsFree v.shared.heap (keys writes)
    × (v.local ≡ locked.local)
write_and_unlock-Written_example =
    write_and_unlock-Written 5 writes locked moves (refl, tt) locked-IsHeld moves-AllSpare
