-- ===== src/LinkedList/Overlay.antt =====
-- datatypes/LinkedList.h: the list as a transaction sees it, each node with what the write set has
-- for it laid over it, and how getVal, getNext and the check of a node read it when no other thread
-- acts meanwhile.
pub mod Sets
pub mod Walk
pub mod Search
pub mod Write
pub mod Get
pub mod Put
pub mod Insert
pub mod Absent
pub mod Bypass
pub mod Remove
use transactional_data_struc.Base.{
  ℕ, ◌≤◌, true, false, Option, none, some, [], ◌≡◌, refl, ◌∙◌, sym, arith, find, ne→==, eq→==,
  if◌then◌else◌, inl, inr, Option-cases, Bool-cases, le→ltb, subst,
}
use transactional_data_struc.Effect.{ok}
use transactional_data_struc.Memory.{Ptr, null, Node, Heap}
use transactional_data_struc.Memory.Storage.{WriteElement, Local}
use transactional_data_struc.Memory.Solo.{Memory}
use transactional_data_struc.Memory.Nodes
use transactional_data_struc.Node.Word
use transactional_data_struc.Chain.Quiet.{IsQuiet}
use transactional_data_struc.Chain.Cover.{Onward}
use transactional_data_struc.LinkedList.{check_node}
use transactional_data_struc.LinkedList.Find.{is_mine_deleted, get_val, get_next}
use transactional_data_struc.LinkedList.Tx.{current_val}

-- A node that the checks of a transaction with this read version let pass.
pub record IsFit (read_version : ℕ) (n : Node) : Type 0 where
  pub free : Word.is_locked n.word ≡ false
  pub live : Word.is_deleted n.word ≡ false
  pub old : Word.get_version n.word ≤ read_version
  pub several : Word.is_same_version_and_singleton read_version n.word ≡ false

pub fit-IsQuiet : (rv : ℕ) (n : Node) → IsFit rv n → IsQuiet n
fit-IsQuiet rv n fit = record { free = fit.free; live = fit.live }

-- What the write set has for a node goes over what the node has.
abbrev pub over : Option WriteElement → Node → Node
over none n = n
over (some e) n = record n {
  val = e.val;
  next = e.next;
  word = if e.deleted then Word.set_deleted true n.word else n.word;
}

abbrev pub over_at : Option WriteElement → Option Node → Option Node
over_at we none = none
over_at we (some n) = some (over we n)

-- The heap that a transaction sees.
unfoldable pub seen : Local → Heap → Heap
seen l h p = over_at (find p l.write_set) (h p)

pub seen-some :
    (l : Local) (h : Heap) (p : Ptr) {m : Node}
    → seen l h p ≡ some m
    → (n : Node) × (h p ≡ some n) × (m ≡ over (find p l.write_set) n)
unfolding seen
seen-some l h p {m} e = elim (Option-cases (h p)) [
  | inl gone ↦ absurd (ground (arith, e, gone))
  | inr (n, at) ↦ (n, at, ground (arith, e, at))
]

-- With nothing written a transaction sees what is there.
pub seen-empty : (l : Local) (h : Heap) (p : Ptr) → l.write_set ≡ [] → seen l h p ≡ h p
unfolding seen find
seen-empty l h p e = elim (Option-cases (h p)) [
  | inl gone ↦ rw (e, gone)
  | inr (n, at) ↦ rw (e, at)
]

over-key : (we : Option WriteElement) (n : Node) → (over we n).key ≡ n.key
over-key none n = refl
over-key (some e) n = refl

set_deleted-deleted : (l : ℕ) → Word.is_deleted (Word.set_deleted true l) ≡ true
unfolding Word.is_deleted Word.set_deleted
set_deleted-deleted l = ground arith

-- A node that is seen to be fit is fit, and the transaction has not deleted it.
over-IsFit :
    (rv : ℕ) (we : Option WriteElement) (n : Node)
    → IsFit rv (over we n)
    → IsFit rv n × (is_mine_deleted we ≡ false)
over-IsFit rv none n fit = (fit, refl)
over-IsFit rv (some e) n fit = elim (Bool-cases e.deleted) [
  | inl gone ↦ absurd (ground (arith, fit.live, gone, set_deleted-deleted n.word))
  | inr o ↦ (
    record {
      free = ground (arith, fit.free, o);
      live = ground (arith, fit.live, o);
      old = ground (arith, fit.old, o);
      several = ground (arith, fit.several, o);
    },
    o,
  )
]

module _ {I : Type 0} where
  -- The node at `p` is seen as `m`, which is fit.
  pub record Sees (w : Memory I) (p : Ptr) (m : Node) : Type 0 where
    pub own : Node
    pub at : w.shared.heap p ≡ some own
    pub key : own.key ≡ m.key
    pub laid : m ≡ over (find p w.local.write_set) own
    pub fit : IsFit w.local.read_version own
    pub kept : is_mine_deleted (find p w.local.write_set) ≡ false

  pub sees :
      (w : Memory I) (p : Ptr) {m : Node}
      → seen w.local w.shared.heap p ≡ some m
      → IsFit w.local.read_version m
      → Sees w p m
  sees w p {m} e fit =
      let (n, at, laid) = seen-some w.local w.shared.heap p e in
      let we = find p w.local.write_set in
      let (own_fit, kept) =
        over-IsFit w.local.read_version we n (subst (IsFit w.local.read_version) laid fit) in
      record {
        own = n;
        at = at;
        key = sym (over-key we n) ∙ rw (sym laid);
        laid = laid;
        fit = own_fit;
        kept = kept;
      }

  pub check_node-run :
      (w : Memory I) (p : Ptr) {n : Node}
      → w.shared.heap p ≡ some n
      → IsFit w.local.read_version n
      → check_node p w [] ≡ ok tt w []
  unfolding check_node Nodes.is_locked Nodes.node_version Nodes.is_same_version_and_singleton
  check_node-run w p {n} at fit = rw (
    at,
    fit.free,
    at,
    le→ltb w.local.read_version (Word.get_version n.word) fit.old,
    at,
    fit.several,
  )

  pub get_val-run :
      (w : Memory I) (p : Ptr) {m : Node} → Sees w p m → get_val p w [] ≡ ok m.val w []
  unfolding get_val
  get_val-run w p {m} s = elim (Option-cases (find p w.local.write_set)) [
    | inl new ↦ rw (new, s.at, s.laid, new)
    | inr (e, old) ↦ rw (old, s.laid, old)
  ]

  pub current_val-run :
      (w : Memory I) (p : Ptr) {m : Node} → Sees w p m → current_val p w [] ≡ ok m.val w []
  unfolding current_val
  current_val-run w p {m} s = elim (Option-cases (find p w.local.write_set)) [
    | inl new ↦ rw (new, s.at, s.laid, new)
    | inr (e, old) ↦ rw (old, s.laid, old)
  ]

  pub get_next-run :
      (w : Memory I) (p : Ptr) {m : Node}
      → Sees w p m
      → Onward (IsFit w.local.read_version) (seen w.local w.shared.heap) m.next
      → get_next p w [] ≡ ok m.next w []
  unfolding get_next Nodes.is_locked
  get_next-run w p {m} s onward = elim (Option-cases (find p w.local.write_set)) [
    | inr (e, old) ↦ rw (old, s.laid, old)
    | inl new ↦
        let same : m ≡ s.own = s.laid ∙ rw new in
        let at : w.shared.heap p ≡ some m = s.at ∙ rw same in
        let fit : IsFit w.local.read_version m =
          subst (IsFit w.local.read_version) (sym same) s.fit in
        elim onward [
          | inl end ↦ rw (new, at, fit.free, at, check_node-run w p at fit, eq→== m.next null end)
          | inr (ne, m', at', fit') ↦
              let s' = sees w m.next at' fit' in
              rw (
                new,
                at,
                fit.free,
                at,
                check_node-run w p at fit,
                ne→== m.next null ne,
                check_node-run w m.next s'.at s'.fit,
              )
        ]
  ]
