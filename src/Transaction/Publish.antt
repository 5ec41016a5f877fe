-- ===== src/Transaction/Publish.antt =====
-- TX.h with datatypes/LinkedList.h: `TXend` makes the list that the transaction sees the committed
-- one, when no other thread acts meanwhile.
use transactional_data_struc.Base.{
  ℕ, ◌+◌, ◌^◌, ◌≤◌, ◌<◌, true, false, [], ◌≡◌, sym, ◌∙◌, arith, find, inl, inr, Option-cases, subst,
}
use transactional_data_struc.Effect.{ok}
use transactional_data_struc.Memory.{Ptr, Node}
use transactional_data_struc.Memory.Storage.{WriteElement, clear}
use transactional_data_struc.Memory.Solo.{Memory}
use transactional_data_struc.Node.Word
use transactional_data_struc.Index.{IndexOps}
use transactional_data_struc.Index.Laws.{IndexLaws}
use transactional_data_struc.Chain.Spec.{Cells}
use transactional_data_struc.Chain.Sorted.{IsSorted}
use transactional_data_struc.Chain.Transfer.{Likeness, IsSorted-transfer}
use transactional_data_struc.LinkedList.{LinkedList}
use transactional_data_struc.LinkedList.Overlay.{IsFit, Sees, sees}
use transactional_data_struc.LinkedList.Overlay.Search.{Views}
use transactional_data_struc.Transaction.{tx_end}
use transactional_data_struc.Transaction.IndexUpdate.{IsTotal}
use transactional_data_struc.Transaction.Stamp.{committed, committed_node, Committed}
use transactional_data_struc.Transaction.End.{IsReadable, CanCommit, tx_end-commit}

-- A node that a transaction with this read version may read is one that its validation lets pass.
pub fit-IsReadable : (rv : ℕ) (n : Node) → IsFit rv n → IsReadable rv n
unfolding Word.get_version Word.is_singleton Word.is_same_version_and_singleton
fit-IsReadable rv n fit = record {
  free = fit.free;
  current = record { not_newer = fit.old; not_singleton = ground (arith, fit.several) };
}

-- Under a later version a fit node stays fit.
fit-later : (rv g : ℕ) (n : Node) → rv < g → IsFit rv n → IsFit g n
unfolding Word.get_version Word.is_same_version_and_singleton
fit-later rv g n lt fit = record {
  free = fit.free;
  live = fit.live;
  old = omega (arith, fit.old);
  several = ground (arith, fit.old);
}

-- What a commit writes into a fit node, where it does not delete it.
kept-IsFit :
    (rv g : ℕ) (e : WriteElement) (n : Node)
    → g < 2 ^ 60
    → e.deleted ≡ false
    → IsFit rv n
    → IsFit g (committed_node g e n)
unfolding Word.is_locked Word.is_deleted Word.get_version Word.is_same_version_and_singleton
    Word.locked Word.unlocked Word.set_version Word.set_singleton
kept-IsFit rv g e n room kept fit = record {
  free = ground (arith, fit.free, kept);
  live = ground (arith, fit.live, kept);
  old = ground (arith, kept);
  several = ground (arith, kept);
}

module _ {I : Type 0} where
  -- The node that a commit leaves where the transaction sees `m`.
  commit-Likeness :
      (w v : Memory I) (p : Ptr) {m : Node}
      → Committed w v
      → w.local.read_version ≤ w.shared.gvc
      → w.shared.gvc + 1 < 2 ^ 60
      → Sees w p m
      → Likeness (IsFit (w.shared.gvc + 1)) v.shared.heap p m
  commit-Likeness w v p {m} done older room s =
      let g = w.shared.gvc + 1 in
      elim (Option-cases (find p w.local.write_set)) [
        | inl same ↦ record {
          node = s.own;
          at = done.heap p ∙ rw (committed, same, s.at);
          key = s.key;
          val = rw (s.laid, same);
          next = rw (s.laid, same);
          good = fit-later w.local.read_version g s.own (omega arith) s.fit;
        }
        | inr (e, put) ↦
            let kept : e.deleted ≡ false = ground (arith, s.kept, put) in
            record {
              node = committed_node g e s.own;
              at = done.heap p ∙ rw (committed, put, s.at);
              key = s.key;
              val = rw (s.laid, put, kept);
              next = rw (s.laid, put);
              good = kept-IsFit w.local.read_version g e s.own room kept s.fit;
            }
      ]

module _ (X : IndexOps) (laws : IndexLaws X) (total : IsTotal X) (list : LinkedList) where
  Views-CanCommit :
      (w : Memory X.State) (bs es : Cells)
      → Views X laws list w bs es
      → w.local.tx ≡ true
      → w.local.read_only ≡ false
      → w.local.read_version ≤ w.shared.gvc
      → w.shared.gvc + 1 < 2 ^ 60
      → CanCommit w
  Views-CanCommit w bs es v tx writes older room = record {
    in_tx = tx;
    writes = writes;
    once = v.tracks.once;
    written_free = λ p i. let (n, at, fit) = v.tracks.written p i in (n, at, fit.free);
    readable = λ p i.
        let (n, at, fit) = v.tracks.read p i in (n, at, fit-IsReadable w.local.read_version n fit);
    older = older;
    room = room;
  }

  -- What TXend leaves behind: the list that the transaction has seen, fit for the next one.
  pub record Published (w v : Memory X.State) (es : Cells) : Type 0 where
    pub sorted : IsSorted (IsFit v.shared.gvc) v.shared.heap list.head es
    pub fresh : v.shared.fresh ≡ w.shared.fresh
    pub empty : v.local.write_set ≡ []
    pub ended : v.local.tx ≡ false

  -- TXend of a transaction that has written and sees a sorted list over the committed one, its
  -- read version not ahead of the clock and the clock below 2 ^ 60, answers true, and the list
  -- that it has seen is then the list in shared memory, of nodes that the next transaction may
  -- read. No other thread acts meanwhile and the index is total.
  pub tx_end-Published :
      (w : Memory X.State) (bs es : Cells)
      → Views X laws list w bs es
      → w.local.tx ≡ true
      → w.local.read_only ≡ false
      → w.local.read_version ≤ w.shared.gvc
      → w.shared.gvc + 1 < 2 ^ 60
      → (v : Memory X.State) × (tx_end X w [] ≡ ok true v []) × Published w v es
  unfolding clear
  tx_end-Published w bs es views tx writes older room =
      let (v, run, done) =
        tx_end-commit X total w (Views-CanCommit w bs es views tx writes older room) in
      (
        v,
        run,
        record {
          sorted =
              subst (λ g. IsSorted (IsFit g) v.shared.heap list.head es) (sym done.gvc)
                (IsSorted-transfer
                  (λ p m at fit. commit-Likeness w v p done older room (sees w p at fit))
                  views.viewed);
          fresh = done.fresh;
          empty = rw done.local;
          ended = rw done.local;
        },
      )
