-- ===== src/Worker.antt =====
-- main.cpp: the workers of the benchmark. A worker runs its tasks in transactions of a fixed number
-- of operations, and counts what it has done. Its counters are of type `int`, kept modulo 2 ^ 32.
pub mod Count
pub mod Init
pub mod Ranges
use transactional_data_struc.Base.{
  ℕ, zero, suc, ◌+◌, ◌-◌, ◌*◌, ◌/◌, ◌%◌, ◌^◌, Bool, true, false, ◌||◌, Option, none, some, List, [],
  ◌∷◌, ◌==◌, ltb, if◌then◌else◌, is_some,
}
use transactional_data_struc.Effect.{
  World, Schedule, Run, ok, throw, fault, out_of_fuel, tx_abort, empty_queue, invalid_argument,
  not_initialized, pure, and_then, ◌>>=◌, ◌>>◌,
}
use transactional_data_struc.Memory.{Shared, Op}
use transactional_data_struc.Memory.Storage.{Local}
use transactional_data_struc.Index.{IndexOps}
use transactional_data_struc.LinkedList.{LinkedList}
use transactional_data_struc.LinkedList.Tx.{put, contains_key}
use transactional_data_struc.LinkedList.Tx
use transactional_data_struc.Transaction.{tx_begin, tx_end, handle_abort}

pub data TaskType : Type 0 where
  insert remove contains : TaskType

pub record Task : Type 0 where
  pub task_type : TaskType
  pub key : ℕ
  pub val : ℕ

abbrev pub int : ℕ → ℕ
int n = n % 2 ^ 32

-- The three counters of `work`, of the transaction that is open.
pub record InTx : Type 0 where
  pub ops : ℕ
  pub inserts : ℕ
  pub removes : ℕ

-- The four members that count.
pub record Counters : Type 0 where
  pub succ_ops : ℕ
  pub fail_ops : ℕ
  pub inserts_occurred : ℕ
  pub removes_occurred : ℕ

abbrev pub none_open : InTx
none_open = record { ops = 0; inserts = 0; removes = 0 }

unfoldable pub count_success : InTx → Counters → Counters
count_success t c = record {
  succ_ops = int (c.succ_ops + t.ops);
  fail_ops = c.fail_ops;
  inserts_occurred = int (c.inserts_occurred + t.inserts);
  removes_occurred = int (c.removes_occurred + t.removes);
}

unfoldable pub count_failure : InTx → Counters → Counters
count_failure t c = record c { fail_ops = int (c.fail_ops + t.ops) }

-- `index_task == tasks_index_end - 1`, by the tasks after this one.
abbrev pub is_last : List Task → Bool
is_last [] = true
is_last (_ ∷ _) = false

module _ (X : IndexOps) (list : LinkedList) (fuel : ℕ) where
  -- `commit_task_and_update_counters`
  abbrev pub commit_by_type : TaskType → Task → InTx → Op X.State InTx
  commit_by_type insert task t = do
    old ← put X list fuel task.key task.val
    pure (if is_some old then t else record t { inserts = int (t.inserts + 1) })
  commit_by_type remove task t = do
    old ← Tx.remove X list fuel task.key
    pure (if is_some old then record t { removes = int (t.removes + 1) } else t)
  commit_by_type contains task t = do _ ← contains_key X list fuel task.key; pure t

  unfoldable pub commit_task : Task → InTx → Op X.State InTx
  commit_task task t = commit_by_type task.task_type task t

  -- The body of the `try` block: `last` says whether the task is the last one. The answer is the
  -- open transaction and the counters after it.
  unfoldable pub attempt : ℕ → Task → Bool → InTx → Counters → Op X.State (InTx × Counters)
  unfolding commit_task count_success
  attempt ops_per_transc task last t c = do
    if t.ops == 0 then tx_begin else pure tt
    t' ← commit_task task (record t { ops = int (t.ops + 1) })
    if (t'.ops == ops_per_transc) || last
        then (do _ ← tx_end X; pure (none_open, count_success t' c))
        else pure (t', c)

  -- The `catch` block, for an attempt that has counted its operation.
  abbrev pub recover :
      InTx
      → Counters
      → Run (Shared X.State) Local (InTx × Counters)
      → Run (Shared X.State) Local (InTx × Counters)
  recover t c (throw tx_abort w es) =
      and_then (handle_abort w es)
        λ _ w' es'. ok (none_open, count_failure (record t { ops = int (t.ops + 1) }) c) w' es'
  recover t c (ok a w es) = ok a w es
  recover t c (throw empty_queue w es) = throw empty_queue w es
  recover t c (throw invalid_argument w es) = throw invalid_argument w es
  recover t c (throw not_initialized w es) = throw not_initialized w es
  recover t c fault = fault
  recover t c out_of_fuel = out_of_fuel

  -- `work`, over the tasks from `tasks_index_begin` to `tasks_index_end`.
  unfoldable pub work_from : ℕ → List Task → InTx → Counters → Op X.State Counters
  unfolding attempt count_failure
  work_from ops_per_transc [] t c = pure c
  work_from ops_per_transc (task ∷ tasks) t c = do
    (t', c') ← λ w es. recover t c (attempt ops_per_transc task (is_last tasks) t c w es)
    work_from ops_per_transc tasks t' c'

  unfoldable pub work : ℕ → List Task → Counters → Op X.State Counters
  unfolding work_from
  work ops_per_transc tasks c = work_from ops_per_transc tasks none_open c

  -- `init_linked_list`, given the random tasks that its loop makes.
  unfoldable put_all : List Task → ℕ → Op X.State ℕ
  put_all [] size = pure size
  put_all (task ∷ tasks) size = do
    old ← put X list fuel task.key task.val
    put_all tasks (if is_some old then size else int (size + 1))

  unfoldable pub init_linked_list : List Task → Op X.State ℕ
  unfolding put_all
  init_linked_list tasks = do tx_begin; size ← put_all tasks 0; _ ← tx_end X; pure size

-- `get_random_task`: `r` and `s` are the next numbers of `rand()`. The value of a task that inserts
-- nothing is not initialised in the source: there `s` is what it happens to be.
unfoldable pub get_random_task : ℕ → TaskType → ℕ → ℕ → Task
get_random_task n_init_list insert r s = record {
  task_type = insert;
  key = r % (n_init_list * 10) + 1;
  val = s % (n_init_list * 10) + 1;
}
get_random_task n_init_list remove r s = record {
  task_type = remove;
  key = r % (n_init_list * 10) + 1;
  val = s;
}
get_random_task n_init_list contains r s = record {
  task_type = contains;
  key = r % (n_init_list * 10) + 1;
  val = s;
}

-- How many tasks of each kind `fill_tasks_vector` makes, on `uint32_t`.
unfoldable pub task_counts : ℕ → ℕ → ℕ → ℕ × ℕ × ℕ
task_counts n_tasks x_of_100_inserts x_of_100_removes =
    let n_inserts = (n_tasks * x_of_100_inserts) % 2 ^ 32 / 100 in
    let n_removes = (n_tasks * x_of_100_removes) % 2 ^ 32 / 100 in
    (n_inserts, n_removes, (n_tasks + 2 ^ 32 - (n_inserts + n_removes) % 2 ^ 32) % 2 ^ 32)

-- The sums of `print_results`: what it expects the size of the list to be, and the operations that
-- succeeded and failed.
unfoldable pub print_results : List Counters → ℕ → ℕ × ℕ × ℕ
print_results [] expected = (int expected, 0, 0)
print_results (c ∷ cs) expected =
    let (size, succeeded, failed) =
      print_results cs (int (expected + c.inserts_occurred + (2 ^ 32 - int c.removes_occurred))) in
    (size, int (succeeded + c.succ_ops), int (failed + c.fail_ops))
