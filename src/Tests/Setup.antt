-- ===== src/Tests/Setup.antt =====
-- A list of one binding, 5 ↦ 50, in the node 2 behind the sentinel 1, over the dummy index.
use transactional_data_struc.Base.{◌≡◌, refl, none, some, [], ◌∷◌, update, arith}
use transactional_data_struc.Memory.{Node, Heap}
use transactional_data_struc.Memory.Storage.{initial}
use transactional_data_struc.Memory.Solo.{Memory}
use transactional_data_struc.Node.Word
use transactional_data_struc.Index.Dummy.{DummyIndex, dummy}
use transactional_data_struc.Index.Laws.{dummy_laws}
use transactional_data_struc.Chain.Spec.{Cells}
use transactional_data_struc.Chain.Shape.{last, more}
use transactional_data_struc.Chain.Quiet.{IsQuiet}
use transactional_data_struc.Chain.Sorted.{IsSorted}
use transactional_data_struc.LinkedList.{LinkedList}
use transactional_data_struc.LinkedList.Search.{Holds}

abbrev pub list : LinkedList
list = record { self = 9; head = 1 }

abbrev pub head_node : Node
head_node = record { key = 0; val = some 0; next = 2; word = 0 }

abbrev pub five : Node
five = record { key = 5; val = some 50; next = 0; word = 0 }

abbrev pub heap : Heap
heap = update (update (λ _. none) 1 (some head_node)) 2 (some five)

abbrev pub cells : Cells
cells = (2, 5, 50) ∷ []

abbrev pub memory : Memory DummyIndex
memory = record {
  shared = record {
    heap = heap;
    fresh = 3;
    gvc = 4;
    index = λ _. record { head = 1 };
    retired = [];
  };
  local = initial;
}

zero-IsQuiet : (n : Node) → n.word ≡ 0 → IsQuiet n
unfolding Word.is_locked Word.is_deleted
zero-IsQuiet n e = ground arith

pub heap_sorted : IsSorted IsQuiet heap 1 cells
unfolding update
heap_sorted = record {
  first = head_node;
  from =
      more refl (zero-IsQuiet head_node refl) refl (omega arith) refl refl
        (last refl (zero-IsQuiet five refl) refl);
  ascending = (omega arith, tt);
  distinct = (refl, (refl, tt));
}

pub memory-Holds : Holds dummy dummy_laws list memory cells
memory-Holds = record { sorted = heap_sorted; indexed = refl; below = λ p i. ground arith }
