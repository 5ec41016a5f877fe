-- ===== src/Chain/Sorted.antt =====
-- A sorted list on a heap: the shape, the order of the keys and the addresses all different. The
-- updates at a place keep all three.
use transactional_data_struc.Base.{
  ℕ, true, false, [], ◌∷◌, has, Distinct, ◌≡◌, ◌≢◌, arith, sym, subst,
}
use transactional_data_struc.Memory.{Ptr, Node, Heap}
use transactional_data_struc.Chain.Spec.{
  Cells, addresses, insert, erase, Ascending, insert-Ascending, erase-Ascending,
}
use transactional_data_struc.Chain.Shape.{From, At, at_hit, at_skip}
use transactional_data_struc.Chain.Update.{
  Inserted, From-insert, Overwritten, From-overwrite, Bypassed, From-erase,
}

-- Behind the sentinel `head` the list of `es` hangs.
pub record IsSorted (Q : Node → Type 0) (h : Heap) (head : Ptr) (es : Cells) : Type 0 where
  pub first : Node
  pub from : From Q h head first es
  pub ascending : Ascending 0 es
  pub distinct : Distinct (head ∷ addresses es)

pub has-insert :
    (f key v p : ℕ) (es : Cells)
    → p ≢ f
    → has p (addresses es) ≡ false
    → has p (addresses (insert f key v es)) ≡ false
unfolding insert
has-insert f key v p [] ne o = ground arith
has-insert f key v p ((q, k, u) ∷ es) ne o = ground (arith, has-insert f key v p es)

Distinct-insert :
    (f key v : ℕ) (es : Cells)
    → has f (addresses es) ≡ false
    → Distinct (addresses es)
    → Distinct (addresses (insert f key v es))
unfolding insert
Distinct-insert f key v [] o d = ground arith
Distinct-insert f key v ((q, k, u) ∷ es) o d =
    ground (arith, has-insert f key v q es, Distinct-insert f key v es)

pub has-erase :
    (key p : ℕ) (es : Cells)
    → has p (addresses es) ≡ false
    → has p (addresses (erase key es)) ≡ false
unfolding erase
has-erase key p [] o = o
has-erase key p ((q, k, u) ∷ es) o = ground (arith, has-erase key p es)

Distinct-erase :
    (key : ℕ) (es : Cells) → Distinct (addresses es) → Distinct (addresses (erase key es))
unfolding erase
Distinct-erase key [] d = tt
Distinct-erase key ((q, k, u) ∷ es) d = ground (arith, has-erase key q es, Distinct-erase key es)

-- Where the key is there, the addresses stay.
pub addresses-insert :
    {key p s t : ℕ} {es : Cells} (f v : ℕ)
    → At key p es true s t
    → addresses (insert f key v es) ≡ addresses es
unfolding insert
addresses-insert f v (at_hit hit) = ground arith
addresses-insert f v (at_skip lt a) = ground (arith, addresses-insert f v a)

module _ {Q : Node → Type 0} {h h' : Heap} {head key v s t : ℕ} {es : Cells} where
  pub IsSorted-insert :
      {f : ℕ}
      → IsSorted Q h head es
      → At key head es false s t
      → has f (head ∷ addresses es) ≡ false
      → Inserted Q h h' key v s t f
      → IsSorted Q h' head (insert f key v es)
  IsSorted-insert {f} l a o i =
      let (m, _, _, from) = From-insert Q h h' l.from a (o, l.distinct) i in
      record {
        first = m;
        from = from;
        ascending = insert-Ascending f key v 0 es (omega arith) l.ascending;
        distinct = (
          has-insert f key v head es (ground arith) l.distinct.0,
          Distinct-insert f key v es (ground arith) l.distinct.1,
        );
      }

module _ {Q : Node → Type 0} {h h' : Heap} {head key v s t : ℕ} {es : Cells} where
  pub IsSorted-overwrite :
      (f : ℕ)
      → IsSorted Q h head es
      → At key head es true s t
      → Overwritten Q h h' v t
      → IsSorted Q h' head (insert f key v es)
  IsSorted-overwrite f l a o = record {
    first = l.first;
    from = From-overwrite Q h h' f l.from a l.distinct o;
    ascending = insert-Ascending f key v 0 es (omega arith) l.ascending;
    distinct = subst (λ ps. Distinct (head ∷ ps)) (sym (addresses-insert f v a)) l.distinct;
  }

module _ {Q : Node → Type 0} {h h' : Heap} {head key s t : ℕ} {es : Cells} where
  pub IsSorted-erase :
      IsSorted Q h head es
      → At key head es true s t
      → Bypassed Q h h' s t
      → IsSorted Q h' head (erase key es)
  IsSorted-erase l a b =
      let (m, _, _, from) = From-erase Q h h' l.from a l.distinct b in
      record {
        first = m;
        from = from;
        ascending = erase-Ascending key 0 es l.ascending;
        distinct = (has-erase key head es l.distinct.0, Distinct-erase key es l.distinct.1);
      }
