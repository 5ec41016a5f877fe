-- ===== src/Chain/Transfer.antt =====
-- A list on one heap is a list on another whose nodes have the same keys, values and next pointers.
use transactional_data_struc.Base.{some, ◌≡◌, ◌∙◌}
use transactional_data_struc.Memory.{Ptr, Node, Heap}
use transactional_data_struc.Chain.Spec.{Cells}
use transactional_data_struc.Chain.Shape.{From, last, more}
use transactional_data_struc.Chain.Sorted.{IsSorted}

-- A node with the same contents, at the same place of another heap.
pub record Likeness (R : Node → Type 0) (h' : Heap) (p : Ptr) (n : Node) : Type 0 where
  pub node : Node
  pub at : h' p ≡ some node
  pub key : node.key ≡ n.key
  pub val : node.val ≡ n.val
  pub next : node.next ≡ n.next
  pub good : R node

module _ {Q R : Node → Type 0} {h h' : Heap} where
  From-transfer :
      {p : Ptr} {n : Node} {es : Cells}
      → ((q : Ptr) (m : Node) → h q ≡ some m → Q m → Likeness R h' q m)
      → From Q h p n es
      → (l : Likeness R h' p n) × From R h' p l.node es
  From-transfer copy (last {p} {n} at good e) =
      let l = copy p n at good in (l, last l.at l.good (l.next ∙ e))
  From-transfer copy (more {p} {n} at good e ne k_ v_ f) =
      let l = copy p n at good in
      let (m, rest) = From-transfer copy f in
      (l, more l.at l.good (l.next ∙ e) ne (m.key ∙ k_) (m.val ∙ v_) rest)

  pub IsSorted-transfer :
      {p : Ptr} {es : Cells}
      → ((q : Ptr) (m : Node) → h q ≡ some m → Q m → Likeness R h' q m)
      → IsSorted Q h p es
      → IsSorted R h' p es
  IsSorted-transfer copy l =
      let (m, from) = From-transfer copy l.from in
      record { first = m.node; from = from; ascending = l.ascending; distinct = l.distinct }
