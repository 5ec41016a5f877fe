-- ===== src/Transaction/Commit.antt =====
-- TX.h: the loop of `TXend` that writes what the write set has.
use transactional_data_struc.Base.{
  ℕ, Bool, true, false, ◌≡◌, refl, Option, some, none, [], ◌∷◌, update, update_ne, update_self,
  update-update, find, has, Distinct, Bool-cases, inl, inr, arith, if◌then◌else◌,
}
use transactional_data_struc.Effect.{ok}
use transactional_data_struc.Memory.{Ptr, Node, Heap}
use transactional_data_struc.Memory.Storage.{WriteElement}
use transactional_data_struc.Memory.Solo.{Memory, with_heap, put_node}
use transactional_data_struc.Memory.Nodes
use transactional_data_struc.Node.Word
use transactional_data_struc.Transaction.{commit_node, commit_write_set}
use transactional_data_struc.Transaction.Lock.{WriteSet, keys, NodesAre, IsHeld, NodesAre-update}

-- The node that a write element makes of a locked node.
abbrev pub written_word : ℕ → WriteElement → ℕ → ℕ
written_word version we l =
    Word.set_singleton false
      (Word.set_version version (if we.deleted then Word.set_deleted true l else l))

abbrev pub written : ℕ → WriteElement → Node → Node
written version we n = record {
  key = n.key;
  val = if we.deleted then none else we.val;
  next = we.next;
  word = written_word version we n.word;
}

abbrev pub write_one : ℕ → WriteElement → Option Node → Option Node
write_one version we none = none
write_one version we (some n) = some (written version we n)

abbrev pub write_all : ℕ → Heap → WriteSet → Heap
write_all version h [] = h
write_all version h ((p, we) ∷ ws) = write_all version (update h p (write_one version we (h p))) ws

-- The three setters leave the lock alone, so each finds the node locked.
pub held-set_deleted :
    (l : ℕ) (b : Bool) → Word.is_locked l ≡ true → Word.is_locked (Word.set_deleted b l) ≡ true
unfolding Word.is_locked Word.set_deleted
held-set_deleted l b h = ground arith

pub held-set_version :
    (l v : ℕ) → Word.is_locked l ≡ true → Word.is_locked (Word.set_version v l) ≡ true
unfolding Word.is_locked Word.set_version
held-set_version l v h = ground arith

held-set_singleton :
    (l : ℕ) (b : Bool) → Word.is_locked l ≡ true → Word.is_locked (Word.set_singleton b l) ≡ true
unfolding Word.is_locked Word.set_singleton
held-set_singleton l b h = ground arith

module _ {I : Type 0} where
  commit_node-run :
      (w : Memory I) (version : ℕ) (p : Ptr) (we : WriteElement) {n : Node}
      → w.shared.heap p ≡ some n
      → Word.is_locked n.word ≡ true
      → commit_node version (p, we) w [] ≡ ok tt (put_node w p (written version we n)) []
  unfolding commit_node Nodes.set_deleted Nodes.set_version Nodes.set_singleton
  commit_node-run w version p we {n} at held = elim (Bool-cases we.deleted) [
    | inl gone ↦
        let h1 = held-set_deleted n.word true held in
        let h2 = held-set_version (Word.set_deleted true n.word) version h1 in
        simp (at, gone, update_self, update-update, held, h1, h2)
    | inr kept ↦
        let h2 = held-set_version n.word version held in
        simp (at, kept, update_self, update-update, held, h2)
  ]

  pub commit_write_set-run :
      (version : ℕ) (ws : WriteSet) (w : Memory I)
      → Distinct (keys ws)
      → NodesAre IsHeld w.shared.heap (keys ws)
      → commit_write_set version ws w []
        ≡ ok tt (with_heap w (write_all version w.shared.heap ws)) []
  unfolding commit_write_set
  commit_write_set-run version [] w d held = refl
  commit_write_set-run version ((p, we) ∷ ws) w d held =
      let (n, at, shut) = held p (ground arith) in
      let n' : Node = written version we n in
      rw (commit_node-run w version p we at shut, write_all, at)
        (rw (
          commit_write_set-run version ws (put_node w p n') d.1 (
            NodesAre-update IsHeld w.shared.heap (some n') p (keys ws) d.0
              (λ q i. held q (ground arith)))))

-- What the write set makes of the node at an address.
abbrev pub by_write_set : ℕ → WriteSet → Ptr → Option Node → Option Node
by_write_set version ws q o = elim (find q ws) [ none ↦ o | some we ↦ write_one version we o ]

find_not-has : (ws : WriteSet) (q : Ptr) → has q (keys ws) ≡ false → find q ws ≡ none
unfolding find
find_not-has [] q out = refl
find_not-has ((p, we) ∷ ws) q out = ground (arith, find_not-has ws q)

pub write_all-by_write_set :
    (version : ℕ) (h : Heap) (ws : WriteSet) (q : Ptr)
    → Distinct (keys ws)
    → write_all version h ws q ≡ by_write_set version ws q (h q)
unfolding find
write_all-by_write_set version h [] q d = refl
write_all-by_write_set version h ((p, we) ∷ ws) q d =
    let o = write_one version we (h p) in
    ground (
      arith,
      write_all-by_write_set version (update h p o) ws q d.1,
      find_not-has ws q,
      update_self h p o,
      update_ne h p o q,
    )

pub written_word-is_locked :
    (v l : ℕ) (we : WriteElement)
    → Word.is_locked l ≡ true
    → Word.is_locked (written_word v we l) ≡ true
unfolding Word.is_locked Word.set_singleton Word.set_version Word.set_deleted
written_word-is_locked v l we h = ground arith
