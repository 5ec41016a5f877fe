-- ===== src/Tests/Worker.antt =====
-- main.cpp: a worker with three tasks and two operations in a transaction, on the list of `Setup`.
use transactional_data_struc.Base.{
  ◌+◌, ◌≡◌, refl, List, [], ◌∷◌, length, update, find, emplace, assign,
}
use transactional_data_struc.Effect.{Run, ok, throw, fault, out_of_fuel}
use transactional_data_struc.Memory.{Shared}
use transactional_data_struc.Memory
use transactional_data_struc.Memory.Storage.{Local}
use transactional_data_struc.Memory.Storage
use transactional_data_struc.Memory.Nodes
use transactional_data_struc.Memory.Solo.{Memory}
use transactional_data_struc.Node.Word
use transactional_data_struc.LinkedList
use transactional_data_struc.LinkedList.Find
use transactional_data_struc.LinkedList.Tx
use transactional_data_struc.Transaction
use transactional_data_struc.Index.Dummy.{DummyIndex, dummy}
use transactional_data_struc.Worker.{Task, TaskType, insert, remove, contains, Counters, int, work}
use transactional_data_struc.Worker
use transactional_data_struc.Worker.Count.{work-counts}
use transactional_data_struc.Tests.Setup.{list, memory}

abbrev tasks : List Task
tasks =
    record { task_type = insert; key = 7; val = 70 }
    ∷ record { task_type = contains; key = 7; val = 0 }
    ∷ record { task_type = contains; key = 5; val = 0 }
    ∷ []

abbrev no_counts : Counters
no_counts = record { succ_ops = 0; fail_ops = 0; inserts_occurred = 0; removes_occurred = 0 }

abbrev run : Run (Shared DummyIndex) Local Counters
run = work dummy list 9 2 tasks no_counts memory []

abbrev world : Run (Shared DummyIndex) Local Counters → Memory DummyIndex
world (ok c w es) = w
world (throw e w es) = w
world fault = memory
world out_of_fuel = memory

abbrev counts : Counters
counts = record { succ_ops = 3; fail_ops = 0; inserts_occurred = 1; removes_occurred = 0 }

runs : run ≡ ok counts (world run) []
unfolding work Worker.work_from Worker.attempt Worker.commit_task Worker.count_success
    Worker.count_failure Transaction.tx_begin Transaction.tx_end Transaction.lock_phase
    Transaction.validate_phase Transaction.commit_phase Transaction.lock_write_set
    Transaction.validate_read_set Transaction.validate_node Transaction.new_write_version
    Transaction.commit_write_set Transaction.commit_node Transaction.update_index
    Transaction.add_all Transaction.remove_all Tx.put Tx.put_tx Tx.put_new Tx.put_found
    Tx.contains_key Tx.get Tx.get_tx Tx.current_val Find.find_node Find.find_from Find.get_pred
    Find.skip_deleted Find.get_next Find.get_val LinkedList.check_node Nodes.is_locked
    Nodes.is_deleted Nodes.node_version Nodes.is_singleton Nodes.is_same_version_and_singleton
    Nodes.try_lock Nodes.unlock Nodes.set_deleted Nodes.set_singleton Nodes.set_version
    Word.is_locked Word.is_deleted Word.is_singleton Word.get_version
    Word.is_same_version_and_singleton Word.locked Word.unlocked Word.put_bit Word.set_deleted
    Word.set_singleton Word.set_version Memory.get_version Memory.increment_and_get_version
    Memory.get_new_node Memory.retire_node Storage.put_into_write_set Storage.push_back
    Storage.add_to_index_add Storage.add_to_index_remove Storage.read_set_emplace Storage.clear
    update find emplace assign
runs = refl

work-counts_example : int 3 ≡ int (0 + 0 + length tasks)
work-counts_example =
    work-counts dummy list 9 2 tasks no_counts counts memory (world run) [] [] runs
