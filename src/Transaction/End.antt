-- ===== src/Transaction/End.antt =====
-- TX.h: `TXend` of a transaction that commits, when no other thread acts meanwhile.
use transactional_data_struc.Base.{
  ℕ, ◌+◌, ◌%◌, ◌^◌, ◌≤◌, ◌<◌, true, false, not, ◌≡◌, refl, sym, ◌∙◌, ap, subst, some, none, List,
  [], ◌∷◌, inl, inr, has, find, Distinct, Bool-cases, lt→ltb, arith,
}
use transactional_data_struc.Effect.{ok, if_true}
use transactional_data_struc.Memory.{Ptr, Node, Heap, increment_and_get_version}
use transactional_data_struc.Memory.Storage.{clear}
use transactional_data_struc.Memory.Solo.{Memory, with_heap}
use transactional_data_struc.Node.Word
use transactional_data_struc.Index.{IndexOps}
use transactional_data_struc.Transaction.{
  new_write_version, lock_write_set, lock_phase, validate_phase, commit_phase, tx_end,
}
use transactional_data_struc.Transaction.Lock.{
  WriteSet, keys, NodesAre, IsFree, IsHeld, reword, reword_at, reword_at-other, reword_at-member,
  lock_write_set-run, unlock_all-run, has-find,
}
use transactional_data_struc.Transaction.Commit.{
  written, write_all, commit_write_set-run, write_all-by_write_set, written_word-is_locked,
}
use transactional_data_struc.Transaction.Validate.{IsCurrent, AllPass, validate_read_set-run}
use transactional_data_struc.Transaction.IndexUpdate.{IsTotal, update_index-run}
use transactional_data_struc.Transaction.Stamp.{committed, all-IsStamped, Committed}

-- A node of the read set that nobody else holds and that is no newer than the read version.
pub record IsReadable (read_version : ℕ) (n : Node) : Type 0 where
  pub free : IsFree n
  pub current : IsCurrent read_version n.word

-- The transaction of the thread writes, its nodes are there and free, and what it has read is
-- still current.
pub record CanCommit {I : Type 0} (w : Memory I) : Type 0 where
  pub in_tx : w.local.tx ≡ true
  pub writes : w.local.read_only ≡ false
  pub once : Distinct (keys w.local.write_set)
  pub written_free : NodesAre IsFree w.shared.heap (keys w.local.write_set)
  pub readable : NodesAre (IsReadable w.local.read_version) w.shared.heap w.local.read_set
  pub older : w.local.read_version ≤ w.shared.gvc
  pub room : w.shared.gvc + 1 < 2 ^ 60

pub locked-is_locked : (l : ℕ) → Word.is_locked (Word.locked l) ≡ true
unfolding Word.is_locked Word.locked
locked-is_locked l = ground arith

locked-IsCurrent : (v l : ℕ) → IsCurrent v l → IsCurrent v (Word.locked l)
unfolding Word.get_version Word.locked Word.is_singleton
locked-IsCurrent v l c = ground arith

module _ (h : Heap) (ws : WriteSet) (once : Distinct (keys ws))
    (free : NodesAre IsFree h (keys ws)) where
  abbrev locked_heap : Heap
  locked_heap = reword_at Word.locked h (keys ws)

  locked-IsHeld : NodesAre IsHeld locked_heap (keys ws)
  locked-IsHeld p i =
      let (n, at, _) = free p i in
      (
        record n { word = Word.locked n.word },
        reword_at-member Word.locked h (keys ws) p once i ∙ ap (reword Word.locked) at,
        locked-is_locked n.word,
      )

  locked-AllPass :
      (v : ℕ) (rs : List Ptr) → NodesAre (IsReadable v) h rs → AllPass v (keys ws) locked_heap rs
  locked-AllPass v rs ok_ p i =
      let (n, at, good) = ok_ p i in
      elim (Bool-cases (has p (keys ws))) [
        | inl mine ↦ (
          record n { word = Word.locked n.word },
          reword_at-member Word.locked h (keys ws) p once mine ∙ ap (reword Word.locked) at,
          record { not_taken = inl mine; current = locked-IsCurrent v n.word good.current },
        )
        | inr other ↦ (
          n,
          reword_at-other Word.locked h (keys ws) p other ∙ at,
          record { not_taken = inr good.free; current = good.current },
        )
      ]

  abbrev written_heap : ℕ → Heap
  written_heap v = write_all v locked_heap ws

  not-has-find : (us : WriteSet) (p : Ptr) → has p (keys us) ≡ false → find p us ≡ none
  unfolding find
  not-has-find [] p i = refl
  not-has-find ((q, we) ∷ us) p i = ground (arith, not-has-find us p)

  written-IsHeld : (v : ℕ) → NodesAre IsHeld (written_heap v) (keys ws)
  written-IsHeld v p i =
      let (n, at, held) = locked-IsHeld p i in
      let (we, e) = has-find ws p i in
      (
        written v we n,
        write_all-by_write_set v locked_heap ws p once ∙ ground (arith, e, at),
        written_word-is_locked v n.word we held,
      )

  final-committed :
      (v : ℕ) (p : Ptr) → reword_at Word.unlocked (written_heap v) (keys ws) p ≡ committed v ws h p
  final-committed v p = elim (Bool-cases (has p (keys ws))) [
    | inl mine ↦
        let (n, at, _) = free p mine in
        let (we, e) = has-find ws p mine in
        reword_at-member Word.unlocked (written_heap v) (keys ws) p once mine
        ∙ ground (
          arith,
          write_all-by_write_set v locked_heap ws p once,
          e,
          reword_at-member Word.locked h (keys ws) p once mine,
          at,
        )
    | inr other ↦
        reword_at-other Word.unlocked (written_heap v) (keys ws) p other
        ∙ ground (
          arith,
          write_all-by_write_set v locked_heap ws p once,
          not-has-find ws p other,
          reword_at-other Word.locked h (keys ws) p other,
        )
  ]

module _ {I : Type 0} where
  abbrev versioned : Memory I → Memory I
  versioned w = record w {
    shared = record w.shared { gvc = w.shared.gvc + 1 };
    local = record w.local { write_version = w.shared.gvc + 1 };
  }

  new_write_version-run :
      (w : Memory I)
      → w.local.read_version ≤ w.shared.gvc
      → w.shared.gvc + 1 < 2 ^ 60
      → new_write_version w [] ≡ ok (w.shared.gvc + 1) (versioned w) []
  unfolding new_write_version increment_and_get_version
  new_write_version-run w older room =
      let e : (w.shared.gvc + 1) % 2 ^ 64 ≡ w.shared.gvc + 1 = omega arith in
      rw (e, lt→ltb w.local.read_version (w.shared.gvc + 1) (omega arith))

  lock_phase-run :
      (w : Memory I) (can : CanCommit w)
      → lock_phase w []
        ≡ ok
            (false, keys w.local.write_set)
            (with_heap w (locked_heap w.shared.heap w.local.write_set can.once can.written_free))
            []
  unfolding lock_phase
  lock_phase-run w can =
      if_true (lock_write_set w.local.write_set) _ w [] can.in_tx
      ∙ lock_write_set-run w.local.write_set w can.once can.written_free

  commit_phase-run :
      (w : Memory I)
      → w.local.read_only ≡ false
      → w.local.read_version ≤ w.shared.gvc
      → w.shared.gvc + 1 < 2 ^ 60
      → Distinct (keys w.local.write_set)
      → NodesAre IsHeld w.shared.heap (keys w.local.write_set)
      → commit_phase false w []
        ≡ ok true
            (with_heap (versioned w) (write_all (w.shared.gvc + 1) w.shared.heap w.local.write_set))
            []
  unfolding commit_phase
  commit_phase-run w writes older room once held =
      if_true _ _ w [] (ap not writes)
      ∙ rw (
        new_write_version-run w older room,
        commit_write_set-run (w.shared.gvc + 1) w.local.write_set (versioned w) once held,
      )

module _ (X : IndexOps) (total : IsTotal X) where
  -- A transaction that can commit (it writes, the nodes of its write set are distinct, there and
  -- free, those of its read set are free and current, its read version is not ahead of the
  -- clock, and the clock stays below 2 ^ 60) ends with true: the clock is one more, each node is
  -- as the write set says, and the tests of its word find it unlocked, at the new version and
  -- not of a singleton, the removed nodes are retired, and the local storage is empty. No other
  -- thread acts meanwhile and the index is total.
  pub tx_end-commit :
      (w : Memory X.State)
      → CanCommit w
      → (v : Memory X.State) × (tx_end X w [] ≡ ok true v []) × Committed w v
  unfolding tx_end validate_phase clear
  tx_end-commit w can =
      let ws = w.local.write_set in
      let h = w.shared.heap in
      let v = w.shared.gvc + 1 in
      let w1 = with_heap w (locked_heap h ws once written_free) in
      let w3 = with_heap (versioned w1) (written_heap h ws once written_free v) in
      let w4 = with_heap w3 (reword_at Word.unlocked w3.shared.heap (keys ws)) in
      let (w5, e5, i5) = update_index-run X total w4 in
      (
        record w5 { local = clear w5.local },
        rw (
          lock_phase-run w can,
          validate_read_set-run w.local.read_set w1 (keys ws) (
              locked-AllPass h ws once written_free w.local.read_version w.local.read_set readable),
          commit_phase-run w1 can.writes older room once (locked-IsHeld h ws once written_free),
          unlock_all-run (keys ws) w3 once (written-IsHeld h ws once written_free v),
          e5,
        ),
        record {
          heap = λ p.
              subst (λ g. g p ≡ committed v ws h p) (sym i5.heap)
                (final-committed h ws once written_free v p);
          stamped = λ p i.
              let (n, at, stamp) = all-IsStamped v ws h room written_free p i in
              (
                n,
                subst (λ g. g p ≡ some n) (sym i5.heap)
                    (final-committed h ws once written_free v p ∙ at),
                stamp,
              );
          gvc = i5.gvc;
          fresh = i5.fresh;
          retired = i5.retired;
          local = ap clear i5.local;
        },
      )
    where
      open can use {once, written_free, readable, older, room}
