-- ===== src/Index/Laws.antt =====
-- nodes/Index.h, datatypes/dummyIndex.h: what a linked list relies on in its index.
use transactional_data_struc.Base.{
  ℕ, true, Option, some, none, ◌≡◌, refl, has, ◌∷◌, sym, ap, ◌∙◌, update, update_self, update_ne,
}
use native.Mathlib.Decide.{ℕ_discrete}
use transactional_data_struc.Memory.{Ptr, Node, Heap}
use transactional_data_struc.Chain.Spec.{Cells, addresses, insert, erase}
use transactional_data_struc.Chain.Shape.{Leads, here}
use transactional_data_struc.Chain.Quiet.{IsQuiet}
use transactional_data_struc.Chain.Sorted.{IsSorted}
use transactional_data_struc.Index.{IndexOps}
use transactional_data_struc.Index.Dummy.{DummyIndex, dummy}

-- The value that a node itself has, whatever a transaction has for it.
abbrev pub val_at : Option Node → Option ℕ
val_at none = none
val_at (some n) = n.val

-- A write that keeps the value of its node keeps that of every node.
pub val_at-update :
    (h : Heap) (s p : Ptr) (m : Node) {n : Node}
    → h s ≡ some n
    → m.val ≡ n.val
    → val_at (update h s (some m) p) ≡ val_at (h p)
val_at-update h s p m {n} at same = elim (ℕ_discrete p s) [
  | yes e ↦ rw e (ap val_at (update_self h s (some m)) ∙ same ∙ sym (ap val_at at))
  | no ne ↦ ap val_at (update_ne h s (some m) p ne)
]

-- `Valid h head es i`: the index `i` serves the list `es` behind `head`. A valid index answers
-- `getPred` by a node of the list before the key's place, and stays valid when it is told of a
-- change, or when other nodes change. The value of the sentinel, which an index may need to find its
-- way, is not changed by any of this.
pub record IndexLaws (X : IndexOps) : Type 1 where
  pub Valid : Heap → Ptr → Cells → X.State → Type 0
  pub finds :
      (key : ℕ) (h : Heap) (head : Ptr) (es : Cells) (i : X.State)
      → IsSorted IsQuiet h head es
      → Valid h head es i
      → (p : Ptr) × (i' : X.State) × (ds : Cells) × (X.get_pred key h i ≡ some (p, i'))
        × Leads key head es p ds
        × Valid h head es i'
  pub frames :
      (h h' : Heap) (head : Ptr) (es : Cells) (i : X.State)
      → ((r : Ptr) → has r (head ∷ addresses es) ≡ true → h' r ≡ h r)
      → Valid h head es i
      → Valid h' head es i
  pub adds :
      (p key v : ℕ) (h h' : Heap) (head : Ptr) (es : Cells) (i : X.State)
      → IsSorted IsQuiet h head es
      → IsSorted IsQuiet h' head (insert p key v es)
      → val_at (h' head) ≡ val_at (h head)
      → Valid h head es i
      → (i' : X.State) × (X.add p h' i ≡ some i') × Valid h' head (insert p key v es) i'
  pub keeps :
      (p key v : ℕ) (h h' : Heap) (head : Ptr) (es : Cells) (i : X.State)
      → IsSorted IsQuiet h head es
      → IsSorted IsQuiet h' head (insert p key v es)
      → val_at (h' head) ≡ val_at (h head)
      → addresses (insert p key v es) ≡ addresses es
      → Valid h head es i
      → Valid h' head (insert p key v es) i
  pub removes :
      (p key : ℕ) (h h' : Heap) (head : Ptr) (es : Cells) (i : X.State) (n : Node)
      → IsSorted IsQuiet h head es
      → IsSorted IsQuiet h' head (erase key es)
      → val_at (h' head) ≡ val_at (h head)
      → has p (addresses es) ≡ true
      → h' p ≡ some n
      → n.val ≡ none
      → Valid h head es i
      → (i' : X.State) × (X.remove p h' i ≡ some i') × Valid h' head (erase key es) i'

abbrev pub KnowsHead : Heap → Ptr → Cells → DummyIndex → Type 0
KnowsHead h head es i = i.head ≡ head

pub dummy-finds :
    (key : ℕ) (h : Heap) (head : Ptr) (es : Cells) (i : DummyIndex)
    → KnowsHead h head es i
    → (p : Ptr) × (i' : DummyIndex) × (ds : Cells) × (dummy.get_pred key h i ≡ some (p, i'))
      × Leads key head es p ds
      × KnowsHead h head es i'
dummy-finds key h head es i e = (head, i, es, rw e, here, e)

-- The dummy index serves every list whose head it knows.
abbrev pub dummy_laws : IndexLaws dummy
dummy_laws = record {
  Valid = KnowsHead;
  finds = λ key h head es i l e. dummy-finds key h head es i e;
  frames = λ h h' head es i same e. e;
  adds = λ p key v h h' head es i l l' u e. (i, refl, e);
  keeps = λ p key v h h' head es i l l' u s e. e;
  removes = λ p key h h' head es i n l l' u m at gone e. (i, refl, e);
}
