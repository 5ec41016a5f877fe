-- ===== src/LinkedList/Overlay/Bypass.antt =====
-- datatypes/LinkedList.h: the writes with which `remove` takes a node out of the list that the
-- transaction sees, when no other thread acts meanwhile.
use transactional_data_struc.Base.{
  ℕ, Bool, true, false, Option, some, [], ◌∷◌, ◌≡◌, ◌≢◌, refl, sym, arith, has, has-later, find,
  inl, inr, Bool-cases,
}
use transactional_data_struc.Effect.{ok}
use transactional_data_struc.Memory.{Ptr, null, Node}
use transactional_data_struc.Memory.Solo.{Memory}
use transactional_data_struc.Memory.Storage.{
  Local, put_into_write_set, read_set_emplace, add_to_index_remove,
}
use transactional_data_struc.Index.{IndexOps}
use transactional_data_struc.Index.Laws.{IndexLaws}
use transactional_data_struc.Chain.Spec.{Cells, addresses, erase}
use transactional_data_struc.Chain.Shape.{At, At-mem}
use transactional_data_struc.Chain.Place.{At-mem_next, At-ne}
use transactional_data_struc.Chain.Sorted.{IsSorted-erase, has-erase}
use transactional_data_struc.Chain.Cover.{has_cell-erase, Onward}
use transactional_data_struc.LinkedList.{LinkedList}
use transactional_data_struc.LinkedList.Tx.{remove_found}
use transactional_data_struc.LinkedList.Overlay.{Sees, get_val-run, get_next-run}
use transactional_data_struc.LinkedList.Overlay.Walk.{seen_in, FitIn}
use transactional_data_struc.LinkedList.Overlay.Search.{Views, Covers}
use transactional_data_struc.LinkedList.Overlay.Sets.{Tracks-put}
use transactional_data_struc.LinkedList.Overlay.Write.{
  find-put_self, find-put_ne, Covers-put, below-put, seen-Bypassed, element,
}

module _ {I : Type 0} where
  abbrev pub with_local : Memory I → Local → Memory I
  with_local w l = record w { local = l }

  -- The writes that take `t`, seen as `m`, out from behind `s`, seen as `n`.
  abbrev pub bypass : Memory I → Ptr → Ptr → Node → Node → Local
  bypass w s t n m =
      put_into_write_set t null m.val true (put_into_write_set s m.next n.val false w.local)

  abbrev pub with_removed : Memory I → ℕ → Ptr → Ptr → Node → Node → Memory I
  with_removed w self s t n m = record w {
    local = add_to_index_remove self t (read_set_emplace t (bypass w s t n m));
  }

  Sees-put :
      (w : Memory I) (p t next : Ptr) (val : Option ℕ) (deleted : Bool) {m : Node}
      → Sees w t m
      → t ≢ p
      → Sees (with_local w (put_into_write_set p next val deleted w.local)) t m
  unfolding put_into_write_set
  Sees-put w p t next val deleted st ne =
      let same = find-put_ne p next val deleted w.local t ne in
      record {
        own = st.own;
        at = st.at;
        key = st.key;
        laid = rw same st.laid;
        fit = st.fit;
        kept = rw same st.kept;
      }

  find-removed :
      (w : Memory I) (self : ℕ) (s t : Ptr) (n m : Node)
      → find t (with_removed w self s t n m).local.write_set ≡ some (element null m.val true)
  unfolding read_set_emplace add_to_index_remove
  find-removed w self s t n m =
      find-put_self t null m.val true (put_into_write_set s m.next n.val false w.local)

module _ {I : Type 0} (list : LinkedList) where
  pub remove_found-run :
      (w : Memory I) (s t : ℕ) {n m : Node}
      → Sees w s n
      → Sees w t m
      → Onward (FitIn w) (seen_in w) m.next
      → s ≢ t
      → remove_found list s t w [] ≡ ok m.val (with_removed w list.self s t n m) []
  unfolding remove_found
  remove_found-run w s t {n} {m} ss st onward ne =
      let w1 = with_local w (put_into_write_set s m.next n.val false w.local) in
      let st1 = Sees-put w s t m.next n.val false st (λ e. ne (sym e)) in
      rw (
        get_next-run w t st onward,
        get_val-run w s ss,
        get_val-run w1 t st1,
        find-removed w list.self s t n m,
      )

module _ (X : IndexOps) (laws : IndexLaws X) (list : LinkedList) where
  abbrev W : Type 0
  W = Memory X.State

  pub Views-removed :
      (w : W) (bs es : Cells) (key s t : ℕ) {n m : Node}
      → Views X laws list w bs es
      → At key list.head es true s t
      → seen_in w s ≡ some n
      → Sees w s n
      → seen_in w t ≡ some m
      → Sees w t m
      → Views X laws list (with_local w (bypass w s t n m)) bs (erase key es)
  unfolding put_into_write_set
  Views-removed w bs es key s t {n} {m} v a e_s ss e_t st =
      let l1 = put_into_write_set s m.next n.val false w.local in
      let ne = At-ne a v.viewed.distinct in
      let same = find-put_ne s m.next n.val false w.local t (λ e. ne (sym e)) in
      let covers1 : Covers l1 bs es =
        Covers-put s m.next n.val false w.local bs es es v.covers (λ q k i. inr i) ss.kept in
      record {
        committed = v.committed;
        viewed = IsSorted-erase v.viewed a (
            seen-Bypassed w.local.read_version w.local w.shared.heap s t m.val ss.at ss.fit e_s
              ss.key e_t ne);
        covers =
            Covers-put t null m.val true l1 bs es (erase key es) covers1
              (λ q k i. elim (has_cell-erase q k a i) [ inl e ↦ inl (e, refl) | inr o ↦ inr o ])
              (rw same st.kept);
        indexed = v.indexed;
        committed_below = v.committed_below;
        viewed_below = λ p i. v.viewed_below p (below-erase p i);
        written_below =
            below-put t null m.val true l1 w.shared.fresh
              (v.viewed_below t (has-later t list.head (addresses es) (At-mem_next a)))
              (below-put s m.next n.val false w.local w.shared.fresh (v.viewed_below s (At-mem a))
                v.written_below);
        valued = λ p i. v.valued p (erased p i);
        tracks =
            Tracks-put t null m.val true st.at st.fit
              (Tracks-put s m.next n.val false ss.at ss.fit v.tracks);
      }
    where
      erased : (p : Ptr) → has p (addresses (erase key es)) ≡ true → has p (addresses es) ≡ true
      erased p i = elim (Bool-cases (has p (addresses es))) [
        | inl y ↦ y
        | inr o ↦ absurd (ground (arith, has-erase key p es o))
      ]

      below-erase :
          (p : Ptr)
          → has p (list.head ∷ addresses (erase key es)) ≡ true
          → has p (list.head ∷ addresses es) ≡ true
      below-erase p i = elim (Bool-cases (has p (addresses es))) [
        | inl y ↦ has-later p list.head (addresses es) y
        | inr o ↦ ground (arith, has-erase key p es o)
      ]
