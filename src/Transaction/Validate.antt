-- ===== src/Transaction/Validate.antt =====
-- TX.h: the loop of `TXend` that validates the read set.
use transactional_data_struc.Base.{
  ℕ, ◌≤◌, true, false, ◌&&◌, ◌≡◌, refl, some, List, [], ◌∷◌, ◌⊎◌, has, ◌==◌, arith, Bool,
  if◌then◌else◌, subst, Bool-cases, inl, inr, ==→eq, sym,
}
use mathlib.Core.Path.{subst₂}
use transactional_data_struc.Effect.{Cmd, Schedule, ok, fault, pure, and_then-ok}
use transactional_data_struc.Memory.{Ptr, Node, Heap, Shared, increment_and_get_version}
use transactional_data_struc.Memory.Storage.{Local}
use transactional_data_struc.Memory.Solo.{Memory}
use transactional_data_struc.Memory.Nodes
use transactional_data_struc.Node.Word
use transactional_data_struc.Transaction.{validate_node, validate_read_set}
use transactional_data_struc.Transaction.Lock.{IsFree}

-- The word is no newer than the read version, and not of a singleton at that very version.
pub record IsCurrent (read_version l : ℕ) : Type 0 where
  pub not_newer : Word.get_version l ≤ read_version
  pub not_singleton : ((Word.get_version l == read_version) && Word.is_singleton l) ≡ false

-- A node of the read set that passes: current, and not locked by another thread.
pub record Passes (read_version : ℕ) (locked : List Ptr) (p : Ptr) (n : Node) : Type 0 where
  pub not_taken : (has p locked ≡ true) ⊎ IsFree n
  pub current : IsCurrent read_version n.word

abbrev pub AllPass : ℕ → List Ptr → Heap → List Ptr → Type 0
AllPass read_version locked h rs =
    (p : Ptr) → has p rs ≡ true → (n : Node) × (h p ≡ some n) × Passes read_version locked p n

module _ {I : Type 0} where
  validate_node-run :
      (w : Memory I) (locked : List Ptr) (p : Ptr) {n : Node}
      → w.shared.heap p ≡ some n
      → Passes w.local.read_version locked p n
      → validate_node locked p w [] ≡ ok false w []
  unfolding validate_node Nodes.is_locked Nodes.node_version Nodes.is_singleton
  validate_node-run w locked p {n} at good = ground arith

  pub validate_read_set-run :
      (rs : List Ptr) (w : Memory I) (locked : List Ptr)
      → AllPass w.local.read_version locked w.shared.heap rs
      → validate_read_set locked rs w [] ≡ ok false w []
  unfolding validate_read_set
  validate_read_set-run [] w locked all = refl
  validate_read_set-run (p ∷ rs) w locked all =
      let (n, at, good) = all p (ground arith) in
      rw (validate_node-run w locked p at good)
        (validate_read_set-run rs w locked (λ q i. all q (ground arith)))

  -- What it takes to pass.
  validate_node-Passes :
      (w w' : Memory I) (es : Schedule (Shared I)) (locked : List Ptr) (p : Ptr)
      → validate_node locked p w [] ≡ ok false w' es
      → ((n : Node) × (w.shared.heap p ≡ some n) × Passes w.local.read_version locked p n)
        × (w' ≡ w)
        × (es ≡ [])
  unfolding validate_node Nodes.is_locked Nodes.node_version Nodes.is_singleton Nodes.set_singleton
  validate_node-Passes w w' es locked p h = ground arith

  abbrev Reads : Memory I → List Ptr → Ptr → Type 0
  Reads w locked p =
      (n : Node) × (w.shared.heap p ≡ some n) × Passes w.local.read_version locked p n

  abbrev next : List Ptr → List Ptr → Bool → Cmd (Shared I) Local Bool
  next rs locked abort = if abort then pure true else validate_read_set locked rs

  next-false :
      (rs locked : List Ptr) (abort : Bool) (v : Memory I) (ds : Schedule (Shared I))
      {w' : Memory I} {es : Schedule (Shared I)}
      → next rs locked abort v ds ≡ ok false w' es
      → (abort ≡ false) × (validate_read_set locked rs v ds ≡ ok false w' es)
  next-false rs locked true v ds h = cc
  next-false rs locked false v ds h = (refl, h)

  -- If the validation of a read set passes, with no other thread acting, then memory is as it
  -- was and each node of the read set is no newer than the read version, is not of a singleton
  -- at that version, and is unlocked or locked by the transaction.
  pub validate_read_set-AllPass :
      (rs : List Ptr) (w w' : Memory I) (es : Schedule (Shared I)) (locked : List Ptr)
      → validate_read_set locked rs w [] ≡ ok false w' es
      → AllPass w.local.read_version locked w.shared.heap rs × (w' ≡ w) × (es ≡ [])
  unfolding validate_read_set
  validate_read_set-AllPass [] w w' es locked h = (λ p i. cc, cc, cc)
  validate_read_set-AllPass (p ∷ rs) w w' es locked h =
      let (abort, v, ds, e, k) = and_then-ok (validate_node locked p w []) (next rs locked) h in
      let (go_on, k') = next-false rs locked abort v ds k in
      let (passes, same, idle) =
        validate_node-Passes w v ds locked p
          (subst (λ b. validate_node locked p w [] ≡ ok b v ds) go_on e) in
      let k'' = subst₂ (λ x xs. validate_read_set locked rs x xs ≡ ok false w' es) same idle k' in
      let (rest, same', idle') = validate_read_set-AllPass rs w w' es locked k'' in
      (
        λ q i. elim (Bool-cases (q == p)) [
          | inl here ↦ subst (λ x. Reads w locked x) (sym (==→eq q p here)) passes
          | inr there ↦ rest q (ground arith)
        ],
        same',
        idle',
      )

  -- If a node of the read set is free, not locked by the transaction, and written by a singleton
  -- operation at the read version, then its validation fails an assertion. No other thread acts
  -- meanwhile.
  pub validate_node-fault :
      (w : Memory I) (locked : List Ptr) (p : Ptr) {n : Node}
      → w.shared.heap p ≡ some n
      → has p locked ≡ false
      → IsFree n
      → Word.get_version n.word ≡ w.local.read_version
      → Word.is_singleton n.word ≡ true
      → validate_node locked p w [] ≡ fault
  unfolding validate_node Nodes.is_locked Nodes.node_version Nodes.is_singleton Nodes.set_singleton
      increment_and_get_version
  validate_node-fault w locked p at out free same single = ground arith
