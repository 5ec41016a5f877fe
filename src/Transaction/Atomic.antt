-- ===== src/Transaction/Atomic.antt =====
-- TX.h with datatypes/LinkedList.h: a whole transaction on one list, when no other thread acts
-- meanwhile.
use transactional_data_struc.Base.{
  ℕ, ◌+◌, ◌^◌, ◌<◌, true, false, Option, List, [], ◌∷◌, ◌≡◌, refl, sym, arith, length, inl, inr,
  subst, has, find,
}
use transactional_data_struc.Effect.{ok}
use transactional_data_struc.Memory.{Ptr, get_version}
use transactional_data_struc.Memory.Storage.{Local, clear}
use transactional_data_struc.Memory.Solo.{Memory}
use transactional_data_struc.Index.{IndexOps}
use transactional_data_struc.Index.Laws.{IndexLaws}
use transactional_data_struc.Chain.Spec.{Cells, addresses, lookup}
use transactional_data_struc.Chain.Sorted.{IsSorted}
use transactional_data_struc.Chain.Meaning.{Reads}
use transactional_data_struc.Chain.Cover.{IsSorted-frame, From-valued}
use transactional_data_struc.LinkedList.{LinkedList}
use transactional_data_struc.LinkedList.Overlay.{IsFit, seen, seen-empty}
use transactional_data_struc.Transaction.{
  tx_begin, tx_end, lock_phase, lock_write_set, validate_phase, commit_phase,
}
use transactional_data_struc.Transaction.Lock.{keys}
use transactional_data_struc.Transaction.IndexUpdate.{IsTotal}
use transactional_data_struc.Transaction.Validate.{AllPass, validate_read_set-run}
use transactional_data_struc.Transaction.Publish.{tx_end-Published, fit-IsReadable}
use transactional_data_struc.Transaction.Program.{Call, transaction, effects, Answers}
use transactional_data_struc.Transaction.InTx.{InTx}
use transactional_data_struc.Transaction.Session.{perform_all-Body}

none_has : (ps : List Ptr) (p : Ptr) → ps ≡ [] → has p ps ≡ true → ⊥
none_has ps p e i = absurd (ground (arith, e, i))

module _ (X : IndexOps) where
  -- `TXend` of a transaction that has only read.
  tx_end-only_read :
      (w : Memory X.State) (l : Local)
      → w.local ≡ record l { tx = true; read_only = true; write_set = [] }
      → AllPass l.read_version [] w.shared.heap l.read_set
      → tx_end X w [] ≡ ok true (record w { local = clear w.local }) []
  unfolding tx_end lock_phase lock_write_set validate_phase commit_phase
  tx_end-only_read w l e pass =
      let w1 = record w { local = record l { tx = true; read_only = true; write_set = [] } } in
      subst
        (λ (x : Local).
          tx_end X (record w { local = x }) [] ≡ ok true (record w { local = clear x }) [])
        (sym e) (rw (validate_read_set-run l.read_set w1 [] pass))

module _ (X : IndexOps) (laws : IndexLaws X) (total : IsTotal X) (list : LinkedList) where
  -- A thread between transactions, and a committed list that a transaction may read.
  pub record CanBegin (w : Memory X.State) (es : Cells) : Type 0 where
    pub sorted : IsSorted (IsFit w.shared.gvc) w.shared.heap list.head es
    pub indexed : laws.Valid w.shared.heap list.head es (w.shared.index list.self)
    pub below : (p : Ptr) → has p (list.head ∷ addresses es) ≡ true → p < w.shared.fresh
    pub nothing_written : w.local.write_set ≡ []
    pub nothing_read : w.local.read_set ≡ []
    pub only_reads : w.local.read_only ≡ true
    pub room : w.shared.gvc + 1 < 2 ^ 60

  abbrev pub begun : Memory X.State → Memory X.State
  begun w = record w { local = record w.local { tx = true; read_version = w.shared.gvc } }

  pub begun-InTx :
      (w : Memory X.State) (es : Cells) → CanBegin w es → InTx X laws list (begun w) es es
  unfolding seen find
  begun-InTx w es can = record {
    views = record {
      committed = can.sorted;
      viewed =
          IsSorted-frame can.sorted
            (λ r i. seen-empty (begun w).local w.shared.heap r can.nothing_written);
      covers = λ p k i. inl i;
      indexed = can.indexed;
      committed_below = can.below;
      viewed_below = can.below;
      written_below = λ p le. rw can.nothing_written;
      valued = λ p i. let (m, v, at, val) = From-valued p can.sorted.from i in rw (at, val);
      tracks = record {
        once = rw can.nothing_written tt;
        written = λ p i. absurd (none_has (keys w.local.write_set) p (rw can.nothing_written) i);
        read = λ p i. absurd (none_has w.local.read_set p can.nothing_read i);
      };
    };
    running = refl;
    started = refl;
    reads = inr (can.only_reads, can.nothing_written);
  }

  -- After a transaction of the calls `cs` on a list that had the cells `es`.
  pub record Outcome (v : Memory X.State) (cs : List Call) (es : Cells) : Type 0 where
    pub cells : Cells
    pub sorted : IsSorted (IsFit v.shared.gvc) v.shared.heap list.head cells
    pub meaning : Reads cells (effects cs (λ k. lookup k es))
    pub nothing_written : v.local.write_set ≡ []
    pub ended : v.local.tx ≡ false

  -- The end of a transaction whose body has run, whether it has written or not.
  pub end-Outcome :
      (w : Memory X.State) (bs es : Cells) (cs : List Call) (as_ : Cells)
      → InTx X laws list w bs es
      → Reads es (effects cs (λ k. lookup k as_))
      → w.shared.gvc + 1 < 2 ^ 60
      → (v : Memory X.State) × (tx_end X w [] ≡ ok true v [])
        × (o : Outcome v cs as_) × (o.cells ≡ es)
  unfolding clear seen find
  end-Outcome w bs es cs as_ t r room = elim t.reads [
    | inl writes ↦
        let (v, run, p) =
          tx_end-Published X laws total list w bs es t.views t.running writes
            (omega (arith, t.started)) room in
        (
          v,
          run,
          record {
            cells = es;
            sorted = p.sorted;
            meaning = r;
            nothing_written = p.empty;
            ended = p.ended;
          },
          refl,
        )
    | inr (only_reads, empty) ↦ (
      record w { local = clear w.local },
      tx_end-only_read X w w.local
          (λ i. record w.local { tx = t.running i; read_only = only_reads i; write_set = empty i })
          (λ p i.
            let (n, at, fit) = t.views.tracks.read p i in
            let good = fit-IsReadable w.local.read_version n fit in
            (n, at, record { not_taken = inr fit.free; current = good.current })),
      record {
        cells = es;
        sorted =
            subst (λ g. IsSorted (IsFit g) w.shared.heap list.head es) t.started
              (IsSorted-frame t.views.viewed
                (λ r i. sym (seen-empty w.local w.shared.heap r empty)));
        meaning = r;
        nothing_written = refl;
        ended = refl;
      },
      refl,
    )
  ]

  -- A transaction of any calls on a sorted list that may be read, begun with an empty local
  -- storage and the clock below 2 ^ 60, with an index that satisfies its laws and enough fuel,
  -- ends: get and remove have answered what the map had when their turn came, put and
  -- putIfAbsent none just where the key was new; and the list in shared memory is then sorted,
  -- may be read, and has the map that the calls make of the one before, in their order. No other
  -- thread acts meanwhile and the index is total.
  pub transaction-effects :
      (cs : List Call) (fuel : ℕ) (w : Memory X.State) (es : Cells)
      → CanBegin w es
      → length es + length cs < fuel
      → (answers : List (Option ℕ)) × (v : Memory X.State) × (transaction X list fuel cs w []
          ≡ ok answers v [])
        × Answers cs (λ k. lookup k es) answers
        × Outcome v cs es
  unfolding transaction tx_begin get_version
  transaction-effects cs fuel w es can lt =
      let b =
        perform_all-Body X laws list cs fuel (begun w) es es (λ k. lookup k es)
          (begun-InTx w es can) (λ k. refl) (omega arith) lt in
      let (v, run, outcome, _) =
        end-Outcome b.next es b.cells cs es b.in_tx b.meaning (omega (arith, can.room, b.gvc)) in
      (b.answers, v, rw (b.run, run), b.right, outcome)
