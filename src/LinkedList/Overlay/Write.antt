-- ===== src/LinkedList/Overlay/Write.antt =====
-- datatypes/LinkedList.h: what a transaction sees after a call of `putIntoWriteSet`.
use transactional_data_struc.Base.{
  ℕ, ◌<◌, ◌≤◌, Bool, true, false, Option, none, some, ◌≡◌, ◌≢◌, ◌⊎◌, refl, sym, ◌∙◌, arith, find,
  find-assign, ne→==, ==_refl, inl, inr, subst,
}
use transactional_data_struc.Memory.{Ptr, null, Node, Heap}
use transactional_data_struc.Memory.Storage.{WriteElement, Local, put_into_write_set}
use transactional_data_struc.Chain.Spec.{Cells}
use transactional_data_struc.Chain.Cover.{has_cell}
use transactional_data_struc.Chain.Update.{Inserted, Overwritten, Bypassed}
use transactional_data_struc.LinkedList.Find.{is_mine_deleted}
use transactional_data_struc.LinkedList.Overlay.{IsFit, over, over_at, seen}
use transactional_data_struc.LinkedList.Overlay.Search.{Covers}

-- What a call of putIntoWriteSet records.
abbrev pub element : Ptr → Option ℕ → Bool → WriteElement
element next val deleted = record { next = next; val = val; deleted = deleted }

module _ (p next : Ptr) (val : Option ℕ) (deleted : Bool) (l : Local) where
  pub find-put_self :
      find p (put_into_write_set p next val deleted l).write_set ≡ some (element next val deleted)
  unfolding put_into_write_set
  find-put_self = find-assign p p (element next val deleted) l.write_set ∙ rw (==_refl p)

  pub find-put_ne :
      (r : Ptr)
      → r ≢ p
      → find r (put_into_write_set p next val deleted l).write_set ≡ find r l.write_set
  unfolding put_into_write_set
  find-put_ne r ne =
      find-assign p r (element next val deleted) l.write_set ∙ rw (ne→== p r (λ e. ne (sym e)))

  pub seen-put_self :
      (h : Heap)
      → seen (put_into_write_set p next val deleted l) h p
        ≡ over_at (some (element next val deleted)) (h p)
  unfolding seen
  seen-put_self h = rw find-put_self

  pub seen-put_ne :
      (h : Heap) (r : Ptr) → r ≢ p → seen (put_into_write_set p next val deleted l) h r ≡ seen l h r
  unfolding seen
  seen-put_ne h r ne = rw (find-put_ne r ne)

  -- A write keeps what the list covers, where the node has not been deleted.
  pub Covers-put :
      (bs es ds : Cells)
      → Covers l bs es
      → ((q k : ℕ)
          → has_cell q k es ≡ true
          → ((q ≡ p) × (deleted ≡ true)) ⊎ (has_cell q k ds ≡ true))
      → is_mine_deleted (find p l.write_set) ≡ false
      → Covers (put_into_write_set p next val deleted l) bs ds
  Covers-put bs es ds c keeps kept q k i = elim (c q k i) [
    | inl there ↦ elim (keeps q k there) [
      | inl (e, gone) ↦ inr (subst Deleted (sym e) (rw find-put_self gone))
      | inr still ↦ inl still
    ]
    | inr gone ↦
        let ne : q ≢ p = λ e. absurd (ground (arith, gone, e, kept)) in
        inr (rw (find-put_ne q ne) gone)
  ]
    where
      Deleted : Ptr → Type 0
      Deleted x =
          is_mine_deleted (find x (put_into_write_set p next val deleted l).write_set) ≡ true

  pub below-put :
      (fresh : Ptr)
      → p < fresh
      → ((q : Ptr) → fresh ≤ q → find q l.write_set ≡ none)
      → (q : Ptr) → fresh ≤ q
      → find q (put_into_write_set p next val deleted l).write_set ≡ none
  below-put fresh lt o q le = find-put_ne q (omega arith) ∙ o q le

module _ (rv : ℕ) (l : Local) (h : Heap) where
  over-fit :
      (e : WriteElement) (n : Node) → IsFit rv n → e.deleted ≡ false → IsFit rv (over (some e) n)
  over-fit e n fit o = record {
    free = ground (arith, fit.free, o);
    live = ground (arith, fit.live, o);
    old = ground (arith, fit.old, o);
    several = ground (arith, fit.several, o);
  }

  same-seen : (p : Ptr) {m k : Node} → seen l h p ≡ some m → seen l h p ≡ some k → k ≡ m
  same-seen p e d = cc

  -- A new value for a node.
  pub seen-Overwritten :
      (t : Ptr) (val : ℕ) {n m : Node}
      → h t ≡ some n
      → IsFit rv n
      → seen l h t ≡ some m
      → n.key ≡ m.key
      → Overwritten
          (IsFit rv)
          (seen l h)
          (seen (put_into_write_set t m.next (some val) false l) h)
          val
          t
  seen-Overwritten t val {n} {m} at fit sees key = record {
    here = λ k e. (
      over (some (element m.next (some val) false)) n,
      seen-put_self t m.next (some val) false l h ∙ rw at,
      key ∙ rw (same-seen t sees e),
      refl,
      rw (same-seen t sees e),
      over-fit (element m.next (some val) false) n fit refl,
    );
    others = λ r ne. seen-put_ne t m.next (some val) false l h r ne;
  }

  -- A node `s` that is seen as `m` is made to point to `f`, a node that is new.
  pub seen-Inserted :
      (key val s t f : ℕ) (h' : Heap) {n m new : Node}
      → h s ≡ some n
      → IsFit rv n
      → seen l h s ≡ some m
      → n.key ≡ m.key
      → f ≢ null
      → s ≢ f
      → find f l.write_set ≡ none
      → h' f ≡ some new
      → new.key ≡ key
      → new.val ≡ some val
      → new.next ≡ t
      → IsFit rv new
      → ((r : Ptr) → r ≢ f → h' r ≡ h r)
      → Inserted
          (IsFit rv)
          (seen l h)
          (seen (put_into_write_set s f m.val false l) h')
          key
          val
          s
          t
          f
  unfolding seen
  seen-Inserted key val s t f h' {n} {m} {new} at fit sees key_m not_null ne unwritten at_f key_f
        val_f next_f fit_f others =
      record {
        not_null = not_null;
        new = (
          new,
          seen-put_ne s f m.val false l h' f (λ e. ne (sym e)) ∙ rw (unwritten, at_f),
          key_f,
          val_f,
          next_f,
          fit_f,
        );
        before = λ k e. (
          over (some (element f m.val false)) n,
          seen-put_self s f m.val false l h' ∙ rw (others s ne, at),
          key_m ∙ rw (same-seen s sees e),
          rw (same-seen s sees e),
          refl,
          over-fit (element f m.val false) n fit refl,
        );
        others = λ r ne_f ne_s. seen-put_ne s f m.val false l h' r ne_s ∙ rw (others r ne_f);
      }

  -- The node `t` is taken out from behind `s`.
  pub seen-Bypassed :
      (s t : Ptr) (val : Option ℕ) {n m k : Node}
      → h s ≡ some n
      → IsFit rv n
      → seen l h s ≡ some m
      → n.key ≡ m.key
      → seen l h t ≡ some k
      → s ≢ t
      → Bypassed
          (IsFit rv)
          (seen l h)
          (seen (put_into_write_set t null val true (put_into_write_set s k.next m.val false l)) h)
          s
          t
  seen-Bypassed s t val {n} {m} {k} at fit sees_s key sees_t ne =
      let l1 = put_into_write_set s k.next m.val false l in
      record {
        before = λ x y e_x e_y. (
          over (some (element k.next m.val false)) n,
          seen-put_ne t null val true l1 h s ne ∙ seen-put_self s k.next m.val false l h ∙ rw at,
          key ∙ rw (same-seen s sees_s e_x),
          rw (same-seen s sees_s e_x),
          rw (same-seen t sees_t e_y),
          over-fit (element k.next m.val false) n fit refl,
        );
        others = λ r ne_s ne_t.
            seen-put_ne t null val true l1 h r ne_t ∙ seen-put_ne s k.next m.val false l h r ne_s;
      }
