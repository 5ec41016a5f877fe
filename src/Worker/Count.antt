-- ===== src/Worker/Count.antt =====
-- main.cpp: the counters of a worker, whatever the other threads do.
use transactional_data_struc.Base.{
  ℕ, ◌+◌, Bool, true, false, ◌||◌, ◌≡◌, refl, sym, ap, ◌∙◌, subst, List, [], ◌∷◌, ◌==◌, length,
  arith, if◌then◌else◌, is_some,
}
use transactional_data_struc.Effect.{
  World, Schedule, Run, ok, throw, fault, out_of_fuel, tx_abort, empty_queue, invalid_argument,
  not_initialized, pure, and_then-ok, if_true, if_false, ◌>>=◌,
}
use transactional_data_struc.Memory.{Shared, Op}
use transactional_data_struc.Memory.Storage.{Local}
use transactional_data_struc.Index.{IndexOps}
use transactional_data_struc.LinkedList.{LinkedList}
use transactional_data_struc.LinkedList.Tx.{put, contains_key}
use transactional_data_struc.LinkedList.Tx
use transactional_data_struc.Transaction.{tx_begin, tx_end, handle_abort}
use transactional_data_struc.Worker.{
  Task, TaskType, insert, remove, contains, InTx, Counters, int, none_open, count_success,
  count_failure, commit_by_type, commit_task, attempt, recover, is_last, work_from, work,
}

-- The operations that are counted or in the open transaction.
abbrev pub total : InTx → Counters → ℕ
total t c = int (c.succ_ops + c.fail_ops + t.ops)

abbrev more : InTx → InTx
more t = record t { ops = int (t.ops + 1) }

success-total : (t : InTx) (c : Counters) → total none_open (count_success t c) ≡ total t c
unfolding count_success
success-total t c = ground arith

failure-total : (t : InTx) (c : Counters) → total none_open (count_failure t c) ≡ total t c
unfolding count_failure
failure-total t c = ground arith

more-total : (t : InTx) (c : Counters) → total (more t) c ≡ int (total t c + 1)
more-total t c = ground arith

module _ (X : IndexOps) (list : LinkedList) (fuel : ℕ) where
  abbrev S : Type 0
  S = Shared X.State

  commit_by_type-ops :
      (k : TaskType) (task : Task) (t t' : InTx) (w w' : World S Local) (es es' : Schedule S)
      → commit_by_type X list fuel k task t w es ≡ ok t' w' es'
      → t'.ops ≡ t.ops
  commit_by_type-ops insert task t t' w w' es es' h =
      let (old, v, ds, e, k) =
        and_then-ok (put X list fuel task.key task.val w es)
          (λ old. pure (if is_some old then t else record t { inserts = int (t.inserts + 1) })) h in
      ground arith
  commit_by_type-ops remove task t t' w w' es es' h =
      let (old, v, ds, e, k) =
        and_then-ok (Tx.remove X list fuel task.key w es)
          (λ old. pure (if is_some old then record t { removes = int (t.removes + 1) } else t)) h in
      ground arith
  commit_by_type-ops contains task t t' w w' es es' h =
      let (b, v, ds, e, k) = and_then-ok (contains_key X list fuel task.key w es) (λ _. pure t) h in
      ground arith

  abbrev finish : ℕ → Bool → Counters → InTx → Op X.State (InTx × Counters)
  finish ops_per_transc last c t =
      if (t.ops == ops_per_transc) || last
      then (do _ ← tx_end X; pure (none_open, count_success t c))
      else pure (t, c)

  abbrev Pair : Type 0
  Pair = InTx × Counters

  ok-inj :
      (a b : Pair) {w w' : World S Local} {es es' : Schedule S} → ok a w es ≡ ok b w' es' → a ≡ b
  ok-inj a b h = cc

  -- The answer counts `n` operations in all, and none is open if this was the last.
  abbrev Counts : Bool → ℕ → Pair → Type 0
  Counts last n r = (total r.0 r.1 ≡ n) × (last ≡ true → r.0.ops ≡ 0)

  -- The two ends of the `try` block.
  finish-Counts :
      (ops_per_transc : ℕ) (last b : Bool) (t : InTx) (c : Counters) (r : Pair)
      (w w' : World S Local) (es es' : Schedule S)
      → ((t.ops == ops_per_transc) || last) ≡ b
      → finish ops_per_transc last c t w es ≡ ok r w' es'
      → Counts last (total t c) r
  finish-Counts ops_per_transc last true t c r w w' es es' e h =
      let done : Pair = (none_open, count_success t c) in
      let (b, v, ds, _, k) =
        and_then-ok (tx_end X w es) (λ _. pure done)
          (sym (if_true (do _ ← tx_end X; pure done) (pure (t, c)) w es e) ∙ h) in
      subst (Counts last (total t c)) (ok-inj done r k) (success-total t c, λ _. refl)
  finish-Counts ops_per_transc last false t c r w w' es es' e h =
      let done : Pair = (none_open, count_success t c) in
      let on : Pair = (t, c) in
      let k = sym (if_false (do _ ← tx_end X; pure done) (pure on) w es e) ∙ h in
      subst (Counts last (total t c)) (ok-inj on r k) (refl, λ l. ground arith)

  abbrev begin : InTx → Op X.State (Unit {0})
  begin t = if t.ops == 0 then tx_begin else pure tt

  attempt-Counts :
      (ops_per_transc : ℕ) (task : Task) (last : Bool) (t : InTx) (c : Counters) (r : Pair)
      (w w' : World S Local) (es es' : Schedule S)
      → attempt X list fuel ops_per_transc task last t c w es ≡ ok r w' es'
      → Counts last (int (total t c + 1)) r
  unfolding attempt commit_task
  attempt-Counts ops_per_transc task last t c r w w' es es' h =
      let run : Op X.State InTx = commit_by_type X list fuel task.task_type task (more t) in
      let (_, v, ds, _, k) =
        and_then-ok (begin t w es) (λ _. run >>= finish ops_per_transc last c) h in
      let (t1, v1, ds1, e1, k1) = and_then-ok (run v ds) (finish ops_per_transc last c) k in
      let same = commit_by_type-ops task.task_type task (more t) t1 v v1 ds ds1 e1 in
      subst (λ n. Counts last n r)
        (ap (λ n. int (c.succ_ops + c.fail_ops + n)) same ∙ more-total t c)
        (finish-Counts ops_per_transc last _ t1 c r v1 w' ds1 es' refl k1)

  recover-Counts :
      (last : Bool) (t : InTx) (c : Counters) (x : Run S Local Pair) (r : Pair) (w' : World S Local)
      (es' : Schedule S)
      → ((v : World S Local) (ds : Schedule S)
          → x ≡ ok r v ds
          → Counts last (int (total t c + 1)) r)
      → recover X list fuel t c x ≡ ok r w' es'
      → Counts last (int (total t c + 1)) r
  recover-Counts last t c (ok a w es) r w' es' good h = good w' es' h
  recover-Counts last t c (throw tx_abort w es) r w' es' good h =
      let failed : Pair = (none_open, count_failure (more t) c) in
      let (_, v, ds, _, k) = and_then-ok (handle_abort w es) (λ _. pure failed) h in
      subst (Counts last (int (total t c + 1))) (ok-inj failed r k)
        (failure-total (more t) c ∙ more-total t c, λ _. refl)
  recover-Counts last t c (throw empty_queue w es) r w' es' good h = cc
  recover-Counts last t c (throw invalid_argument w es) r w' es' good h = cc
  recover-Counts last t c (throw not_initialized w es) r w' es' good h = cc
  recover-Counts last t c fault r w' es' good h = cc
  recover-Counts last t c out_of_fuel r w' es' good h = cc

  work_from-counts :
      (ops_per_transc : ℕ) (tasks : List Task) (t : InTx) (c c' : Counters) (w w' : World S Local)
      (es es' : Schedule S)
      → (is_last tasks ≡ true → t.ops ≡ 0)
      → work_from X list fuel ops_per_transc tasks t c w es ≡ ok c' w' es'
      → int (c'.succ_ops + c'.fail_ops) ≡ int (total t c + length tasks)
  unfolding work_from
  work_from-counts ops_per_transc [] t c c' w w' es es' closed h =
      let e : c ≡ c' = cc in
      let z = closed refl in
      ap (λ x. int (x.succ_ops + x.fail_ops)) (sym e)
      ∙ all_counted (c.succ_ops + c.fail_ops) t.ops z
    where
      all_counted : (a n : ℕ) → n ≡ 0 → int a ≡ int (int (a + n) + 0)
      all_counted a n z = omega arith
  work_from-counts ops_per_transc (task ∷ tasks) t c c' w w' es es' closed h =
      let (r, v, ds, e, k) =
        and_then-ok
          (recover X list fuel t c
            (attempt X list fuel ops_per_transc task (is_last tasks) t c w es))
          (λ r. work_from X list fuel ops_per_transc tasks r.0 r.1) h in
      let (counted, none_left) =
        recover-Counts (is_last tasks) t c
          (attempt X list fuel ops_per_transc task (is_last tasks) t c w es) r v ds
          (λ u us. attempt-Counts ops_per_transc task (is_last tasks) t c r w u es us) e in
      work_from-counts ops_per_transc tasks r.0 r.1 c' v w' ds es' none_left k
      ∙ ap (λ n. int (n + length tasks)) counted
      ∙ omega arith

  -- Whatever the other threads do, a worker that has run its tasks has counted each of them
  -- once, as succeeded or as failed, modulo 2 ^ 32.
  pub work-counts :
      (ops_per_transc : ℕ) (tasks : List Task) (c c' : Counters) (w w' : World S Local)
      (es es' : Schedule S)
      → work X list fuel ops_per_transc tasks c w es ≡ ok c' w' es'
      → int (c'.succ_ops + c'.fail_ops) ≡ int (c.succ_ops + c.fail_ops + length tasks)
  unfolding work
  work-counts ops_per_transc tasks c c' w w' es es' h =
      work_from-counts ops_per_transc tasks none_open c c' w w' es es' (λ _. refl) h ∙ omega arith
