-- ===== src/Tests/Overlay.antt =====
-- A transaction over the list of `Setup`, 5 ↦ 50.
use transactional_data_struc.Base.{
  ℕ, ◌≡◌, refl, true, [], ◌∷◌, Option, List, update, arith, length, ◌+◌,
}
use transactional_data_struc.Effect.{ok, ◌>>=◌}
use transactional_data_struc.Memory.{Node}
use transactional_data_struc.Memory.Solo.{Memory}
use transactional_data_struc.Node.Word
use transactional_data_struc.Index.Dummy.{DummyIndex, dummy}
use transactional_data_struc.Index.Laws.{dummy_laws}
use transactional_data_struc.Chain.Spec.{lookup, insert, insert_absent, erase, address}
use transactional_data_struc.Chain.Shape.{last, more}
use transactional_data_struc.Chain.Sorted.{IsSorted}
use transactional_data_struc.LinkedList.Tx.{put, put_if_absent, remove, get}
use transactional_data_struc.LinkedList.Overlay.{IsFit}
use transactional_data_struc.LinkedList.Overlay.Search.{Views}
use transactional_data_struc.LinkedList.Overlay.Get.{Got, get-lookup}
use transactional_data_struc.LinkedList.Overlay.Insert.{Becomes, own_val, put-insert}
use transactional_data_struc.LinkedList.Overlay.Absent.{put_if_absent-insert_absent}
use transactional_data_struc.LinkedList.Overlay.Remove.{remove-erase}
use transactional_data_struc.Transaction.{tx_begin, tx_end, handle_abort}
use transactional_data_struc.Transaction.Undo.{Undone, handle_abort-Undone}
use transactional_data_struc.Transaction.Publish.{Published, tx_end-Published}
use transactional_data_struc.Transaction.Program.{
  Call, put_call, put_if_absent_call, remove_call, get_call, perform_all, transaction, Answers,
}
use transactional_data_struc.Transaction.Atomic.{
  CanBegin, begun, begun-InTx, Outcome, transaction-effects,
}
use transactional_data_struc.Worker.{Task, TaskType, int, init_linked_list}
use transactional_data_struc.Worker
use transactional_data_struc.Worker.Init.{puts, init_linked_list-grown}
use transactional_data_struc.Tests.Setup.{list, head_node, five, heap, cells, memory}
use transactional_data_struc.Tests.Transaction.{dummy_total}

zero-IsFit : (n : Node) → n.word ≡ 0 → IsFit 4 n
unfolding Word.is_locked Word.is_deleted Word.get_version Word.is_same_version_and_singleton
zero-IsFit n e = record {
  free = ground arith;
  live = ground arith;
  old = ground arith;
  several = ground arith;
}

heap_fit : IsSorted (IsFit 4) heap 1 cells
unfolding update
heap_fit = record {
  first = head_node;
  from =
      more refl (zero-IsFit head_node refl) refl (omega arith) refl refl
        (last refl (zero-IsFit five refl) refl);
  ascending = (omega arith, tt);
  distinct = (refl, (refl, tt));
}

memory-CanBegin : CanBegin dummy dummy_laws dummy_total list memory cells
memory-CanBegin = record {
  sorted = heap_fit;
  indexed = refl;
  below = λ p i. ground arith;
  nothing_written = refl;
  nothing_read = refl;
  only_reads = refl;
  room = omega arith;
}

-- Put 3, find 5, put 5 again, remove 3, and look for it.
abbrev calls : List Call
calls =
    put_call 3 30
    ∷ get_call 5
    ∷ put_if_absent_call 7 70
    ∷ put_call 5 51
    ∷ remove_call 3
    ∷ get_call 3
    ∷ []

abbrev started : Memory DummyIndex
started = begun dummy dummy_laws dummy_total list memory

started-Views : Views dummy dummy_laws list started cells cells
started-Views = (begun-InTx dummy dummy_laws dummy_total list memory cells memory-CanBegin).views

transaction-effects_example :
    (answers : List (Option ℕ)) × (v : Memory DummyIndex) × (transaction dummy list 9 calls memory
        []
      ≡ ok answers v [])
    × Answers calls (λ k. lookup k cells) answers
    × Outcome dummy dummy_laws dummy_total list v calls cells
transaction-effects_example =
    transaction-effects dummy dummy_laws dummy_total list calls 9 memory cells memory-CanBegin
      (omega arith)

handle_abort-Undone_example :
    (answers : List (Option ℕ)) × (u v : Memory DummyIndex) × ((tx_begin >>= λ _.
    perform_all dummy list 9 calls)
        memory []
      ≡ ok answers u [])
    × Answers calls (λ k. lookup k cells) answers
    × (handle_abort u [] ≡ ok tt v [])
    × Undone dummy dummy_laws dummy_total list memory u v cells
handle_abort-Undone_example =
    handle_abort-Undone dummy dummy_laws dummy_total list calls 9 memory cells memory-CanBegin
      (omega arith)

get-lookup_example :
    (v : Memory DummyIndex) × (get dummy list 3 5 started [] ≡ ok (lookup 5 cells) v [])
    × Got dummy dummy_laws list started v cells cells 5
get-lookup_example =
    get-lookup dummy dummy_laws list 3 5 started cells cells refl started-Views (omega arith)
      (omega arith)

put-insert_example :
    (v : Memory DummyIndex) × (put dummy list 3 4 40 started []
      ≡ ok (own_val heap (address 4 cells)) v [])
    × Becomes dummy dummy_laws list started v cells (insert 3 4 40 cells)
put-insert_example =
    put-insert dummy dummy_laws list 3 4 40 started cells cells refl started-Views (omega arith)
      (omega arith)

put_if_absent-insert_absent_example :
    (v : Memory DummyIndex) × (put_if_absent dummy list 3 4 40 started []
      ≡ ok (own_val heap (address 4 cells)) v [])
    × Becomes dummy dummy_laws list started v cells (insert_absent 3 4 40 cells)
put_if_absent-insert_absent_example =
    put_if_absent-insert_absent dummy dummy_laws list 3 4 40 started cells cells refl started-Views
      (omega arith) (omega arith)

remove-erase_example :
    (v : Memory DummyIndex) × (remove dummy list 3 5 started [] ≡ ok (lookup 5 cells) v [])
    × Becomes dummy dummy_laws list started v cells (erase 5 cells)
    × (v.shared ≡ record started.shared { index = v.shared.index })
remove-erase_example =
    remove-erase dummy dummy_laws list 3 5 started cells cells refl started-Views (omega arith)
      (omega arith)

-- The transaction after it has put 4 ↦ 40.
put_four :
    (v : Memory DummyIndex) × (put dummy list 3 4 40 started []
      ≡ ok (own_val heap (address 4 cells)) v [])
    × Becomes dummy dummy_laws list started v cells (insert 3 4 40 cells)
put_four =
    put-insert dummy dummy_laws list 3 4 40 started cells cells refl started-Views (omega arith)
      (omega arith)

tx_end-Published_example :
    (v : Memory DummyIndex) × (tx_end dummy put_four.0 [] ≡ ok true v [])
    × Published dummy dummy_laws dummy_total list put_four.0 v (insert 3 4 40 cells)
tx_end-Published_example =
    tx_end-Published dummy dummy_laws dummy_total list put_four.0 cells (insert 3 4 40 cells)
      put_four.2.views put_four.2.running put_four.2.writes
      (omega (arith, put_four.2.version, put_four.2.gvc)) (omega (arith, put_four.2.gvc))

abbrev tasks : List Task
tasks =
    record { task_type = Worker.insert; key = 7; val = 70 }
    ∷ record { task_type = Worker.insert; key = 5; val = 51 }
    ∷ record { task_type = Worker.insert; key = 7; val = 71 }
    ∷ []

init_linked_list-grown_example :
    (new : ℕ) × (v : Memory DummyIndex) × (init_linked_list dummy list 9 tasks memory []
      ≡ ok (int new) v [])
    × (o : Outcome dummy dummy_laws dummy_total list v (puts tasks) cells) × (length o.cells
        ≡ 1 + new)
init_linked_list-grown_example =
    init_linked_list-grown dummy dummy_laws dummy_total list tasks 9 memory cells memory-CanBegin
      (omega arith)
