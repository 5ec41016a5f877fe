-- ===== src/Transaction/Lock.antt =====
-- TX.h: the loops of `TXend` that lock the write set and release the locks.
use transactional_data_struc.Base.{
  ℕ, true, false, ◌≡◌, refl, Option, some, none, List, [], ◌∷◌, update, update_ne, has, Distinct,
  arith, find, Bool-cases, inl, inr, ◌==◌,
}
use transactional_data_struc.Effect.{ok}
use transactional_data_struc.Memory.{Ptr, Node, Heap}
use transactional_data_struc.Memory.Storage.{WriteElement}
use transactional_data_struc.Memory.Solo.{Memory, with_heap, put_node, try_lock-run, unlock-run}
use transactional_data_struc.Memory.Nodes
use transactional_data_struc.Node.Word
use transactional_data_struc.Transaction.{for_each, lock_write_set}

abbrev pub WriteSet : Type 0
WriteSet = List (Ptr × WriteElement)

abbrev pub keys : WriteSet → List Ptr
keys [] = []
keys ((p, _) ∷ ws) = p ∷ keys ws

pub has-find :
    (us : WriteSet) (p : Ptr) → has p (keys us) ≡ true → (we : WriteElement) × (find p us ≡ some we)
unfolding find
has-find [] p i = cc
has-find ((q, we) ∷ us) p i = elim (Bool-cases (q == p)) [
  | inl here ↦ (we, rw here)
  | inr there ↦ let (u, e) = has-find us p (ground arith) in (u, rw there e)
]

-- Every address of the list holds a node that the test accepts.
abbrev pub NodesAre : (Node → Type 0) → Heap → List Ptr → Type 0
NodesAre P h ps = (p : Ptr) → has p ps ≡ true → (n : Node) × (h p ≡ some n) × P n

abbrev pub IsFree : Node → Type 0
IsFree n = Word.is_locked n.word ≡ false

abbrev pub IsHeld : Node → Type 0
IsHeld n = Word.is_locked n.word ≡ true

-- A node with its word changed, at one address and at several.
abbrev pub reword : (ℕ → ℕ) → Option Node → Option Node
reword f none = none
reword f (some n) = some (record n { word = f n.word })

abbrev pub reword_at : (ℕ → ℕ) → Heap → List Ptr → Heap
reword_at f h [] = h
reword_at f h (p ∷ ps) = reword_at f (update h p (reword f (h p))) ps

pub reword_at-other :
    (f : ℕ → ℕ) (h : Heap) (ps : List Ptr) (q : Ptr) → has q ps ≡ false → reword_at f h ps q ≡ h q
reword_at-other f h [] q out = refl
reword_at-other f h (p ∷ ps) q out =
    ground (
      arith,
      reword_at-other f (update h p (reword f (h p))) ps q,
      update_ne h p (reword f (h p)) q,
    )

pub reword_at-member :
    (f : ℕ → ℕ) (h : Heap) (ps : List Ptr) (q : Ptr)
    → Distinct ps
    → has q ps ≡ true
    → reword_at f h ps q ≡ reword f (h q)
unfolding update
reword_at-member f h [] q d out = cc
reword_at-member f h (p ∷ ps) q d out = ground (
  arith,
  reword_at-other f (update h p (reword f (h p))) ps q,
  reword_at-member f (update h p (reword f (h p))) ps q,
)

-- A change elsewhere keeps the nodes of a list.
pub NodesAre-update :
    (P : Node → Type 0) (h : Heap) (o : Option Node) (p : Ptr) (ps : List Ptr)
    → has p ps ≡ false
    → NodesAre P h ps
    → NodesAre P (update h p o) ps
NodesAre-update P h o p ps out all q i =
    let (n, at, good) = all q i in (n, ground (arith, update_ne h p o q), good)

module _ {I : Type 0} where
  pub lock_write_set-run :
      (ws : WriteSet) (w : Memory I)
      → Distinct (keys ws)
      → NodesAre IsFree w.shared.heap (keys ws)
      → lock_write_set ws w []
        ≡ ok (false, keys ws) (with_heap w (reword_at Word.locked w.shared.heap (keys ws))) []
  unfolding lock_write_set
  lock_write_set-run [] w d free = refl
  lock_write_set-run ((p, we) ∷ ws) w d free =
      let (n, at, open_) = free p (ground arith) in
      let n' : Node = record n { word = Word.locked n.word } in
      rw (try_lock-run w p at open_, reword_at, at)
        (rw (
          lock_write_set-run ws (put_node w p n') d.1 (
            NodesAre-update IsFree w.shared.heap (some n') p (keys ws) d.0
              (λ q i. free q (ground arith)))))

  pub unlock_all-run :
      (ps : List Ptr) (w : Memory I)
      → Distinct ps
      → NodesAre IsHeld w.shared.heap ps
      → for_each Nodes.unlock ps w []
        ≡ ok tt (with_heap w (reword_at Word.unlocked w.shared.heap ps)) []
  unlock_all-run [] w d held = refl
  unlock_all-run (p ∷ ps) w d held =
      let (n, at, shut) = held p (ground arith) in
      let n' : Node = record n { word = Word.unlocked n.word } in
      rw (at, unlock-run w p at shut)
        (rw (
          unlock_all-run ps (put_node w p n') d.1 (
            NodesAre-update IsHeld w.shared.heap (some n') p ps d.0
              (λ q i. held q (ground arith)))))
