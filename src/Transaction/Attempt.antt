-- ===== src/Transaction/Attempt.antt =====
-- TX.h: what the locking and validating loops of `TXend` do when they may fail.
use transactional_data_struc.Base.{
  ℕ, Bool, true, false, not, ◌&&◌, ◌||◌, ◌≡◌, refl, sym, ◌∙◌, ap, subst, some, List, [], ◌∷◌, inl,
  inr, has, Distinct, Bool-cases, ◌==◌, ltb, arith, ==→eq, ==→ne, update_ne,
}
use transactional_data_struc.Effect.{ok}
use transactional_data_struc.Memory.{Ptr, Node, Heap}
use transactional_data_struc.Memory.Storage.{WriteElement}
use transactional_data_struc.Memory.Solo.{Memory, with_heap, put_node, try_lock-run}
use transactional_data_struc.Memory.Nodes
use transactional_data_struc.Node.Word
use transactional_data_struc.Transaction.{lock_write_set, validate_node, validate_read_set}
use transactional_data_struc.Transaction.Lock.{
  WriteSet, keys, NodesAre, IsFree, IsHeld, reword, reword_at, reword_at-other, reword_at-member,
  NodesAre-update,
}
use transactional_data_struc.Transaction.Validate.{IsCurrent, AllPass}
use transactional_data_struc.Transaction.End.{locked-is_locked, IsReadable}

-- The word is not of a singleton at the read version.
abbrev pub IsSettled : ℕ → Node → Type 0
IsSettled read_version n =
    ((Word.get_version n.word == read_version) && Word.is_singleton n.word) ≡ false

abbrev pub IsNode : Node → Type 0
IsNode n = Unit {0}

-- What a run of `lock_write_set` has done.
pub record Locked {I : Type 0} (ws : WriteSet) (w : Memory I) (busy : Bool) (ps : List Ptr)
    : Type 0 where
  pub run :
      lock_write_set ws w []
      ≡ ok (busy, ps) (with_heap w (reword_at Word.locked w.shared.heap ps)) []
  pub once : Distinct ps
  pub free : NodesAre IsFree w.shared.heap ps
  pub within : (p : Ptr) → has p ps ≡ true → has p (keys ws) ≡ true
  pub all : busy ≡ false → ps ≡ keys ws

-- The test that `validate_node` makes of a node that no singleton has just written.
abbrev fails : ℕ → List Ptr → Ptr → Node → Bool
fails read_version locked p n =
    (not (has p locked) && Word.is_locked n.word) || ltb read_version (Word.get_version n.word)

module _ {I : Type 0} where
  lock_write_set-busy :
      (ws : WriteSet) (w : Memory I) (p : Ptr) (we : WriteElement) {n : Node}
      → w.shared.heap p ≡ some n
      → Word.is_locked n.word ≡ true
      → lock_write_set ((p, we) ∷ ws) w [] ≡ ok (true, []) w []
  unfolding lock_write_set Nodes.try_lock
  lock_write_set-busy ws w p we at held = rw (at, held)

  Locked-cons :
      (ws : WriteSet) (w : Memory I) (p : Ptr) (we : WriteElement) {n : Node} {busy : Bool}
      {ps : List Ptr}
      → w.shared.heap p ≡ some n
      → IsFree n
      → has p (keys ws) ≡ false
      → Locked ws (put_node w p (record n { word = Word.locked n.word })) busy ps
      → Locked ((p, we) ∷ ws) w busy (p ∷ ps)
  unfolding lock_write_set
  Locked-cons ws w p we {n} {busy} {ps} at open_ out l = record {
    run = rw (try_lock-run w p at open_, reword_at, at) (rw l.run);
    once =
        (elim (Bool-cases (has p ps)) [ inl i ↦ absurd (cc (l.within p i)) | inr o ↦ o ], l.once);
    free = λ q i. elim (Bool-cases (q == p)) [
      | inl here ↦ (n, ap w.shared.heap (==→eq q p here) ∙ at, open_)
      | inr there ↦
          let (m, e, f) = l.free q (ground arith) in
          (m, sym (update_ne w.shared.heap p _ q (==→ne q p there)) ∙ e, f)
    ];
    within = λ q i. ground (arith, l.within q);
    all = λ e. ap (◌∷◌ p) (l.all e);
  }

  pub lock_write_set-Locked :
      (ws : WriteSet) (w : Memory I)
      → Distinct (keys ws)
      → NodesAre IsNode w.shared.heap (keys ws)
      → (busy : Bool) × (ps : List Ptr) × Locked ws w busy ps
  unfolding lock_write_set
  lock_write_set-Locked [] w d all = (
    false,
    [],
    record { run = refl; once = tt; free = λ p i. cc; within = λ p i. i; all = λ _. refl },
  )
  lock_write_set-Locked ((p, we) ∷ ws) w d all =
      let (n, at, _) = all p (ground arith) in
      elim (Bool-cases (Word.is_locked n.word)) [
        | inl held ↦ (
          true,
          [],
          record {
            run = lock_write_set-busy ws w p we at held;
            once = tt;
            free = λ q i. cc;
            within = λ q i. cc;
            all = λ e. cc;
          },
        )
        | inr open_ ↦
            let n' : Node = record n { word = Word.locked n.word } in
            let (busy, ps, l) = lock_write_set-Locked ws (put_node w p n') d.1 (
              NodesAre-update IsNode w.shared.heap (some n') p (keys ws) d.0
                (λ q i. all q (ground arith))) in
            (busy, p ∷ ps, Locked-cons ws w p we at open_ d.0 l)
      ]

  validate_node-fails :
      (w : Memory I) (locked : List Ptr) (p : Ptr) {n : Node}
      → w.shared.heap p ≡ some n
      → IsSettled w.local.read_version n
      → validate_node locked p w [] ≡ ok (fails w.local.read_version locked p n) w []
  unfolding validate_node Nodes.is_locked Nodes.node_version Nodes.is_singleton
  validate_node-fails w locked p at settled = ground arith

  pub validate_read_set-decides :
      (rs : List Ptr) (w : Memory I) (locked : List Ptr)
      → NodesAre (IsSettled w.local.read_version) w.shared.heap rs
      → (b : Bool) × (validate_read_set locked rs w [] ≡ ok b w [])
  unfolding validate_read_set
  validate_read_set-decides [] w locked all = (false, refl)
  validate_read_set-decides (p ∷ rs) w locked all =
      let (n, at, settled) = all p (ground arith) in
      let e = validate_node-fails w locked p at settled in
      elim (Bool-cases (fails w.local.read_version locked p n)) [
        | inl bad ↦ (true, rw (e, bad))
        | inr good ↦
            let (b, f) = validate_read_set-decides rs w locked (λ q i. all q (ground arith)) in
            (b, rw (e, good) f)
      ]

unlocked-locked : (l : ℕ) → Word.is_locked l ≡ false → Word.unlocked (Word.locked l) ≡ l
unfolding Word.unlocked Word.locked Word.is_locked
unlocked-locked l h = ground arith

settled-locked :
    (v l : ℕ)
    → ((Word.get_version l == v) && Word.is_singleton l) ≡ false
    → ((Word.get_version (Word.locked l) == v) && Word.is_singleton (Word.locked l)) ≡ false
unfolding Word.locked Word.get_version Word.is_singleton
settled-locked v l h = ground arith

locked-IsCurrent_inv : (v l : ℕ) → IsCurrent v (Word.locked l) → IsCurrent v l
unfolding Word.get_version Word.locked Word.is_singleton
locked-IsCurrent_inv v l c = ground arith

module _ (h : Heap) (ps : List Ptr) (once : Distinct ps) (free : NodesAre IsFree h ps) where
  pub IsHeld-in : NodesAre IsHeld (reword_at Word.locked h ps) ps
  IsHeld-in p i =
      let (n, at, _) = free p i in
      (
        record n { word = Word.locked n.word },
        reword_at-member Word.locked h ps p once i ∙ ap (reword Word.locked) at,
        locked-is_locked n.word,
      )

  -- Locking and unlocking changes nothing.
  pub back : (p : Ptr) → reword_at Word.unlocked (reword_at Word.locked h ps) ps p ≡ h p
  back p = elim (Bool-cases (has p ps)) [
    | inl mine ↦
        let (n, at, open_) = free p mine in
        ground (
          arith,
          at,
          reword_at-member Word.unlocked (reword_at Word.locked h ps) ps p once mine,
          reword_at-member Word.locked h ps p once mine,
          unlocked-locked n.word open_,
        )
    | inr other ↦
        reword_at-other Word.unlocked (reword_at Word.locked h ps) ps p other
        ∙ reword_at-other Word.locked h ps p other
  ]

  pub settled_in :
      (v : ℕ) (rs : List Ptr)
      → NodesAre (IsSettled v) h rs
      → NodesAre (IsSettled v) (reword_at Word.locked h ps) rs
  settled_in v rs all p i =
      let (n, at, s) = all p i in
      elim (Bool-cases (has p ps)) [
        | inl mine ↦ (
          record n { word = Word.locked n.word },
          reword_at-member Word.locked h ps p once mine ∙ ap (reword Word.locked) at,
          settled-locked v n.word s,
        )
        | inr other ↦ (n, reword_at-other Word.locked h ps p other ∙ at, s)
      ]

  pub IsReadable-back :
      (v : ℕ) (rs : List Ptr)
      → NodesAre (IsSettled v) h rs
      → AllPass v ps (reword_at Word.locked h ps) rs
      → NodesAre (IsReadable v) h rs
  IsReadable-back v rs all pass p i =
      let (n, at, s) = all p i in
      let (m, e, good) = pass p i in
      elim (Bool-cases (has p ps)) [
        | inl mine ↦
            let (n1, at1, open_) = free p mine in
            let same : m.word ≡ Word.locked n.word =
              ground (arith, at, e, reword_at-member Word.locked h ps p once mine) in
            (
              n,
              at,
              record {
                free = ground (arith, at, at1, open_);
                current = locked-IsCurrent_inv v n.word (subst (IsCurrent v) same good.current);
              },
            )
        | inr other ↦ (
          m,
          sym (reword_at-other Word.locked h ps p other) ∙ e,
          record { free = elim good.not_taken [ inl i ↦ cc | inr f ↦ f ]; current = good.current },
        )
      ]
