-- ===== src/Tests/Whole.antt =====
-- datatypes/LinkedList.h, TX.h, nodes/LNode.h: whole lists, a rollback and a lock, at the list of
-- `Setup`.
use transactional_data_struc.Base.{◌+◌, ◌≡◌, refl, true, false, some, [], ◌∷◌, update, arith}
use transactional_data_struc.Effect.{Schedule, ok}
use transactional_data_struc.Memory.{Shared}
use transactional_data_struc.Memory.Solo.{Memory}
use transactional_data_struc.Memory.Nodes
use transactional_data_struc.Memory.Interference.{Taken, try_lock-Taken}
use transactional_data_struc.Node.Word
use transactional_data_struc.Node.Word.Fields.{
  HasFields, set_version-HasFields, set_singleton-HasFields,
}
use transactional_data_struc.Index.Dummy.{DummyIndex}
use transactional_data_struc.LinkedList.Walk.{get_size, get_sum_key, deinit_list}
use transactional_data_struc.LinkedList.Whole.{
  sum_keys, get_size-length, get_sum_key-sum_keys, deinit_list-all_but_last,
}
use transactional_data_struc.Transaction.Rollback.{retiring}
use transactional_data_struc.Tests.Setup.{list, memory, cells, heap_sorted}

get_size-length_example : get_size 4 list memory [] ≡ ok 1 memory []
get_size-length_example =
    get_size-length 4 memory list cells heap_sorted (omega arith) (omega arith)

get_sum_key-sum_keys_example :
    get_sum_key 4 list memory [] ≡ ok (sum_keys 0 ((1, heap_sorted.first.key, 0) ∷ cells)) memory []
get_sum_key-sum_keys_example =
    get_sum_key-sum_keys 4 memory list cells heap_sorted (omega arith) (omega arith)

deinit_list-all_but_last_example :
    deinit_list 2 list memory [] ≡ ok tt (retiring memory (1 ∷ [])) []
deinit_list-all_but_last_example =
    deinit_list-all_but_last 2 memory list cells heap_sorted (omega arith)

-- Another thread turns the clock before `tryLock` starts, and does nothing before its second access.
abbrev tick : Shared DummyIndex → Shared DummyIndex
tick h = record h { gvc = 5 }

abbrev idle : Shared DummyIndex → Shared DummyIndex
idle h = h

abbrev locked_memory : Memory DummyIndex
locked_memory = record memory {
  shared = record (tick memory.shared) {
    heap =
        update memory.shared.heap 2
          (some (record { key = 5; val = some 50; next = 0; word = Word.lock_mask }));
  };
}

abbrev no_moves : Schedule (Shared DummyIndex)
no_moves = []

locks : Nodes.try_lock 2 memory (tick ∷ idle ∷ []) ≡ ok true locked_memory []
unfolding Nodes.try_lock Word.locked Word.is_locked update
locks = refl

try_lock-Taken_example :
    Taken (tick memory.shared) locked_memory.shared 2
    × (locked_memory.local ≡ memory.local)
    × (no_moves ≡ no_moves)
try_lock-Taken_example = try_lock-Taken memory locked_memory 2 tick idle no_moves no_moves locks

locked_word : HasFields (Word.lock_mask + 3) 3 true false false
unfolding Word.get_version Word.is_locked Word.is_deleted Word.is_singleton
locked_word = record {
  fits = omega arith;
  version_is = refl;
  lock_is = refl;
  deleted_is = refl;
  singleton_is = refl;
}

set_version-HasFields_example :
    HasFields (Word.set_version 8 (Word.lock_mask + 3)) 8 true false false
set_version-HasFields_example =
    set_version-HasFields (Word.lock_mask + 3) 3 8 true false false (omega arith) locked_word

set_singleton-HasFields_example :
    HasFields (Word.set_singleton true (Word.lock_mask + 3)) 3 true false true
set_singleton-HasFields_example =
    set_singleton-HasFields (Word.lock_mask + 3) 3 true false false true locked_word
