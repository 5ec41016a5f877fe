-- ===== src/Transaction/Abort.antt =====
-- TX.h: `TXend` of any transaction, when no other thread acts meanwhile.
use transactional_data_struc.Base.{
  ◌+◌, ◌^◌, ◌≤◌, ◌<◌, Bool, true, false, not, ◌≡◌, refl, ◌∙◌, ap, subst, List, [], inl, inr,
  Distinct, Bool-cases,
}
use transactional_data_struc.Effect.{ok, throw, tx_abort, if_true, if_false}
use transactional_data_struc.Memory.{Ptr}
use transactional_data_struc.Memory.Storage.{clear}
use transactional_data_struc.Memory.Solo.{Memory, with_heap}
use transactional_data_struc.Node.Word
use transactional_data_struc.Index.{IndexOps}
use transactional_data_struc.Transaction.{
  lock_write_set, validate_read_set, lock_phase, validate_phase, commit_phase, tx_end,
}
use transactional_data_struc.Transaction.Lock.{keys, NodesAre, IsFree, reword_at, unlock_all-run}
use transactional_data_struc.Transaction.Validate.{validate_read_set-AllPass}
use transactional_data_struc.Transaction.Attempt.{
  IsSettled, IsNode, Locked, lock_write_set-Locked, validate_read_set-decides, IsHeld-in, back,
  settled_in, IsReadable-back,
}
use transactional_data_struc.Transaction.IndexUpdate.{IsTotal}
use transactional_data_struc.Transaction.Stamp.{emptied, Committed}
use transactional_data_struc.Transaction.End.{tx_end-commit}

-- A transaction whose nodes are there, where no singleton has just written what it has read.
pub record CanEnd {I : Type 0} (w : Memory I) : Type 0 where
  pub in_tx : w.local.tx ≡ true
  pub once : Distinct (keys w.local.write_set)
  pub written : NodesAre IsNode w.shared.heap (keys w.local.write_set)
  pub read : NodesAre (IsSettled w.local.read_version) w.shared.heap w.local.read_set
  pub older : w.local.read_version ≤ w.shared.gvc
  pub room : w.shared.gvc + 1 < 2 ^ 60

-- Shared memory is as it was, and the local storage is empty.
pub record Unchanged {I : Type 0} (w v : Memory I) : Type 0 where
  pub heap : (p : Ptr) → v.shared.heap p ≡ w.shared.heap p
  pub gvc : v.shared.gvc ≡ w.shared.gvc
  pub fresh : v.shared.fresh ≡ w.shared.fresh
  pub index : v.shared.index ≡ w.shared.index
  pub retired : v.shared.retired ≡ w.shared.retired
  pub local : v.local ≡ emptied w.local

module _ (X : IndexOps) where
  abbrev released : Memory X.State → List Ptr → Memory X.State
  released w ps = record {
    shared = record w.shared {
      heap = reword_at Word.unlocked (reword_at Word.locked w.shared.heap ps) ps;
    };
    local = clear w.local;
  }

  released-Unchanged :
      (w : Memory X.State) (ps : List Ptr)
      → Distinct ps
      → NodesAre IsFree w.shared.heap ps
      → Unchanged w (released w ps)
  unfolding clear
  released-Unchanged w ps once free = record {
    heap = back w.shared.heap ps once free;
    gvc = refl;
    fresh = refl;
    index = refl;
    retired = refl;
    local = refl;
  }

  -- The outcomes of `TXend`: it gives up, it has nothing to write, or it commits.
  pub data Ends (w : Memory X.State) : Type 0 where
    aborts : (v : Memory X.State) → tx_end X w [] ≡ throw tx_abort v [] → Unchanged w v → Ends w
    reads :
        (v : Memory X.State)
        → w.local.read_only ≡ true
        → tx_end X w [] ≡ ok true v []
        → Unchanged w v
        → Ends w
    writes : (v : Memory X.State) → tx_end X w [] ≡ ok true v [] → Committed w v → Ends w

  lock_phase-run :
      (w : Memory X.State) {busy : Bool} {ps : List Ptr}
      → w.local.tx ≡ true
      → Locked w.local.write_set w busy ps
      → lock_phase w [] ≡ ok (busy, ps) (with_heap w (reword_at Word.locked w.shared.heap ps)) []
  unfolding lock_phase
  lock_phase-run w in_tx l = if_true (lock_write_set w.local.write_set) _ w [] in_tx ∙ l.run

  tx_end-aborts :
      (w : Memory X.State) {busy : Bool} {ps : List Ptr}
      → w.local.tx ≡ true
      → Locked w.local.write_set w busy ps
      → validate_phase busy ps (with_heap w (reword_at Word.locked w.shared.heap ps)) []
        ≡ ok true (with_heap w (reword_at Word.locked w.shared.heap ps)) []
      → Ends w
  unfolding tx_end commit_phase
  tx_end-aborts w {ps} in_tx l invalid =
      let h = w.shared.heap in
      aborts (released w ps)
        (rw (
          lock_phase-run w in_tx l,
          invalid,
          unlock_all-run ps (with_heap w (reword_at Word.locked h ps)) l.once
              (IsHeld-in h ps l.once l.free),
        ))
        (released-Unchanged w ps l.once l.free)

  tx_end-reads :
      (w : Memory X.State) {busy : Bool} {ps : List Ptr}
      → w.local.tx ≡ true
      → w.local.read_only ≡ true
      → Locked w.local.write_set w busy ps
      → validate_phase busy ps (with_heap w (reword_at Word.locked w.shared.heap ps)) []
        ≡ ok false (with_heap w (reword_at Word.locked w.shared.heap ps)) []
      → Ends w
  unfolding tx_end commit_phase
  tx_end-reads w {ps} in_tx only l valid =
      let h = w.shared.heap in
      let w1 = with_heap w (reword_at Word.locked h ps) in
      reads (released w ps) only
        (rw (
          lock_phase-run w in_tx l,
          valid,
          if_false _ _ w1 [] (ap not only),
          unlock_all-run ps w1 l.once (IsHeld-in h ps l.once l.free),
        ))
        (released-Unchanged w ps l.once l.free)

  tx_end-validated :
      (total : IsTotal X) (w : Memory X.State) {ps : List Ptr}
      → CanEnd w
      → Locked w.local.write_set w false ps
      → validate_read_set ps w.local.read_set
          (with_heap w (reword_at Word.locked w.shared.heap ps))
          []
        ≡ ok false (with_heap w (reword_at Word.locked w.shared.heap ps)) []
      → Ends w
  unfolding validate_phase
  tx_end-validated total w {ps} can l valid = elim (Bool-cases w.local.read_only) [
    | inl only ↦ tx_end-reads w can.in_tx only l valid
    | inr more ↦
        let h = w.shared.heap in
        let w1 = with_heap w (reword_at Word.locked h ps) in
        let (pass, _, _) = validate_read_set-AllPass w.local.read_set w1 w1 [] ps valid in
        let (v, run, done) = tx_end-commit X total w (record {
          in_tx = can.in_tx;
          writes = more;
          once = can.once;
          written_free = subst (NodesAre IsFree h) (l.all refl) l.free;
          readable =
              IsReadable-back h ps l.once l.free w.local.read_version w.local.read_set can.read
                pass;
          older = can.older;
          room = can.room;
        }) in
        writes v run done
  ]

  tx_end-unlocked :
      (total : IsTotal X) (w : Memory X.State) {ps : List Ptr} (busy : Bool)
      → CanEnd w
      → Locked w.local.write_set w busy ps
      → Ends w
  unfolding validate_phase
  tx_end-unlocked total w true can l = tx_end-aborts w can.in_tx l refl
  tx_end-unlocked total w {ps} false can l =
      let h = w.shared.heap in
      let w1 = with_heap w (reword_at Word.locked h ps) in
      let (b, run) =
        validate_read_set-decides w.local.read_set w1 ps
          (settled_in h ps l.once l.free w.local.read_version w.local.read_set can.read) in
      elim (Bool-cases b) [
        | inl bad ↦
            tx_end-aborts w can.in_tx l
              (subst (λ x. validate_read_set ps w.local.read_set w1 [] ≡ ok x w1 []) bad run)
        | inr good ↦
            tx_end-validated total w can l
              (subst (λ x. validate_read_set ps w.local.read_set w1 [] ≡ ok x w1 []) good run)
      ]

  -- TXend of a transaction whose nodes are there, those of its write set distinct, where no
  -- singleton has written what it has read at its read version, which is not ahead of a clock
  -- that stays below 2 ^ 60, ends and is all or nothing: it throws TxAbortException and leaves
  -- shared memory as it was, or it has only read and leaves it so too, or it commits. The local
  -- storage is empty afterwards in each case. No other thread acts meanwhile and the index is
  -- total.
  pub tx_end-Ends : IsTotal X → (w : Memory X.State) → CanEnd w → Ends w
  tx_end-Ends total w can =
      let (busy, ps, l) = lock_write_set-Locked w.local.write_set w can.once can.written in
      tx_end-unlocked total w busy can l
