-- ===== src/Transaction/Undo.antt =====
-- TX.h with datatypes/LinkedList.h: a transaction that is given up, when no other thread acts
-- meanwhile.
use transactional_data_struc.Base.{
  ℕ, ◌+◌, ◌<◌, false, Option, List, [], ◌++◌, ◌≡◌, refl, ap, arith, length, subst,
}
use transactional_data_struc.Effect.{ok, ◌>>=◌}
use transactional_data_struc.Memory.{get_version}
use transactional_data_struc.Memory.Storage.{clear}
use transactional_data_struc.Memory.Solo.{Memory}
use transactional_data_struc.Index.{IndexOps}
use transactional_data_struc.Index.Laws.{IndexLaws}
use transactional_data_struc.Chain.Spec.{Cells, lookup}
use transactional_data_struc.Chain.Sorted.{IsSorted}
use transactional_data_struc.LinkedList.{LinkedList}
use transactional_data_struc.LinkedList.Overlay.{IsFit}
use transactional_data_struc.Transaction.{tx_begin, handle_abort}
use transactional_data_struc.Transaction.IndexUpdate.{IsTotal, vectors}
use transactional_data_struc.Transaction.Rollback.{retiring, handle_abort-run}
use transactional_data_struc.Transaction.Program.{Call, perform_all, Answers}
use transactional_data_struc.Transaction.Session.{perform_all-Body}
use transactional_data_struc.Transaction.Atomic.{CanBegin, begun, begun-InTx}

module _ (X : IndexOps) (laws : IndexLaws X) (total : IsTotal X) (list : LinkedList) where
  -- `v` after the body of a transaction, begun in `w`, has led to `u` and the transaction has been
  -- given up.
  pub record Undone (w u v : Memory X.State) (es : Cells) : Type 0 where
    pub again : CanBegin X laws total list v es
    pub heap : v.shared.heap ≡ u.shared.heap
    pub gvc : v.shared.gvc ≡ w.shared.gvc
    pub retired : v.shared.retired ≡ w.shared.retired ++ vectors u.local.index_add
    pub nothing_added : v.local.index_add ≡ []
    pub nothing_removed : v.local.index_remove ≡ []
    pub ended : v.local.tx ≡ false

  -- A transaction of any calls on a sorted list that may be read, begun with an empty local
  -- storage and the clock below 2 ^ 60 and given up by handle_abort after its calls, with an
  -- index that satisfies its laws and enough fuel, leaves the list in shared memory with the
  -- bindings that it had, and the clock as it was; it retires the nodes that were to be added to
  -- the index, in order; all of the local storage is empty and the thread can begin again. No
  -- other thread acts meanwhile and the index is total.
  pub handle_abort-Undone :
      (cs : List Call) (fuel : ℕ) (w : Memory X.State) (es : Cells)
      → CanBegin X laws total list w es
      → length es + length cs < fuel
      → (answers : List (Option ℕ)) × (u v : Memory X.State) × ((tx_begin >>= λ _.
              perform_all X list fuel cs)
            w []
          ≡ ok answers u [])
        × Answers cs (λ k. lookup k es) answers
        × (handle_abort u [] ≡ ok tt v [])
        × Undone w u v es
  unfolding tx_begin get_version clear
  handle_abort-Undone cs fuel w es can lt =
      let b =
        perform_all-Body X laws list cs fuel (begun X laws total list w) es es (λ k. lookup k es)
          (begun-InTx X laws total list w es can) (λ k. refl) (omega arith) lt in
      let u = b.next in
      let t = b.in_tx in
      (
        b.answers,
        u,
        record (retiring u (vectors u.local.index_add)) { local = clear u.local },
        b.run,
        b.right,
        handle_abort-run u,
        record {
          again = record {
            sorted =
                subst (λ g. IsSorted (IsFit g) u.shared.heap list.head es) t.started
                  t.views.committed;
            indexed = t.views.indexed;
            below = t.views.committed_below;
            nothing_written = refl;
            nothing_read = refl;
            only_reads = refl;
            room = omega (arith, can.room, b.gvc);
          };
          heap = refl;
          gvc = b.gvc;
          retired = ap (λ ps. ps ++ vectors u.local.index_add) b.retired;
          nothing_added = refl;
          nothing_removed = refl;
          ended = refl;
        },
      )
