-- ===== src/LinkedList/Overlay/Remove.antt =====
-- datatypes/LinkedList.h: `remove` in a transaction takes the key out of the list that the
-- transaction sees, when no other thread acts meanwhile.
use transactional_data_struc.Base.{
  ℕ, ◌<◌, Bool, true, false, some, [], ◌≡◌, refl, sym, ◌∙◌, arith, length, subst,
}
use transactional_data_struc.Effect.{ok, if_true}
use transactional_data_struc.Memory.{Ptr, Node}
use transactional_data_struc.Memory.Solo.{Memory}
use transactional_data_struc.Memory.Storage.{
  put_into_write_set, read_set_emplace, add_to_index_remove,
}
use transactional_data_struc.Index.{IndexOps}
use transactional_data_struc.Index.Laws.{IndexLaws}
use transactional_data_struc.Chain.Spec.{Cells, lookup, erase, erase-absent}
use transactional_data_struc.Chain.Shape.{From-head, At}
use transactional_data_struc.Chain.Place.{At-before, At-found, At-absent, At-ne}
use transactional_data_struc.Chain.Cover.{Onward, From-Onward, From-At}
use transactional_data_struc.LinkedList.{LinkedList}
use transactional_data_struc.LinkedList.Find.{find_node}
use transactional_data_struc.LinkedList.Tx.{remove, remove_tx}
use transactional_data_struc.LinkedList.Singleton.{remove_singleton}
use transactional_data_struc.LinkedList.Overlay.{IsFit, seen, sees}
use transactional_data_struc.LinkedList.Overlay.Walk.{seen_in, FitIn}
use transactional_data_struc.LinkedList.Overlay.Search.{Views, find_node-Located}
use transactional_data_struc.LinkedList.Overlay.Sets.{Tracks-read, Tracks-index_remove}
use transactional_data_struc.LinkedList.Overlay.Get.{Views-read}
use transactional_data_struc.LinkedList.Overlay.Insert.{
  Becomes, writing, located, Views-writing, Becomes-read,
}
use transactional_data_struc.LinkedList.Overlay.Bypass.{
  with_local, bypass, with_removed, remove_found-run, Views-removed,
}

module _ (X : IndexOps) (laws : IndexLaws X) (list : LinkedList) where
  abbrev W : Type 0
  W = Memory X.State

  -- The memory in which `remove` has found the key behind `s`.
  abbrev reading : W → X.State → Ptr → W
  reading w i s =
      with_local (located X laws list w i) (read_set_emplace s (located X laws list w i).local)

  Becomes-removed :
      (w : W) (i : X.State) (key s t : ℕ) (bs es : Cells) (n m : Node) {k : Node}
      → w.shared.heap t ≡ some k
      → IsFit w.local.read_version k
      → Views X laws list
          (with_local (reading w i s) (bypass (reading w i s) s t n m))
          bs
          (erase key es)
      → Becomes X laws list w (with_removed (reading w i s) list.self s t n m) bs (erase key es)
  unfolding read_set_emplace put_into_write_set add_to_index_remove seen
  Becomes-removed w i key s t bs es n m at fit u = record {
    views = record {
      committed = u.committed;
      viewed = u.viewed;
      covers = u.covers;
      indexed = u.indexed;
      committed_below = u.committed_below;
      viewed_below = u.viewed_below;
      written_below = u.written_below;
      valued = u.valued;
      tracks = Tracks-index_remove list.self t (Tracks-read t at fit u.tracks);
    };
    heap = λ p ne. refl;
    gvc = refl;
    retired = refl;
    writes = refl;
    running = refl;
    version = refl;
  }

  remove_there :
      (w : W) (i : X.State) (fuel key s t : ℕ) (bs es : Cells) (b : Bool)
      → find_node X list fuel key (writing X laws list w) []
        ≡ ok (b, s, t) (located X laws list w i) []
      → At key list.head es b s t
      → Views X laws list (located X laws list w i) bs es
      → (v : W) × (remove_tx X list fuel key w [] ≡ ok (lookup key es) v [])
        × Becomes X laws list w v bs (erase key es)
        × (v.shared ≡ record w.shared { index = v.shared.index })
  unfolding remove_tx read_set_emplace
  remove_there w i fuel key s t bs es true run a v =
      let w1 = located X laws list w i in
      let w2 = reading w i s in
      let (n1, e_1, fit_1, _) = At-before v.viewed.from a in
      let s1 = sees w1 s e_1 fit_1 in
      let v2 = Views-read X laws list w1 bs es s s1.at s1.fit v in
      let (n, e_s, fit_s, _) = At-before v2.viewed.from a in
      let (m, e_t, fit_t, _, val, _) = At-found v2.viewed.from a in
      let ss = sees w2 s e_s fit_s in
      let st = sees w2 t e_t fit_t in
      let (m2, ds, from) = From-At v2.viewed.from a in
      let (e2, fit2) = From-head from in
      let same : m2 ≡ m = ground (arith, e2, e_t) in
      let onward : Onward (FitIn w2) (seen_in w2) m.next =
        subst (λ (x : Node). Onward (FitIn w2) (seen_in w2) x.next) same (From-Onward from) in
      (
        with_removed w2 list.self s t n m,
        rw (run, remove_found-run list w2 s t ss st onward (At-ne a v.viewed.distinct), val),
        Becomes-removed w i key s t bs es n m st.at st.fit
            (Views-removed X laws list w2 bs es key s t v2 a e_s ss e_t st),
        refl,
      )
  remove_there w i fuel key s t bs es false run a v =
      let absent = At-absent 0 a v.viewed.ascending in
      let (n, e_s, fit_s, _) = At-before v.viewed.from a in
      let ss = sees (located X laws list w i) s e_s fit_s in
      (
        reading w i s,
        rw (run, absent),
        subst (Becomes X laws list w (reading w i s) bs) (sym (erase-absent key es absent))
            (Becomes-read X laws list w i s bs es ss.at ss.fit v),
        refl,
      )

  -- In a transaction that sees a sorted list over the committed one, with an index that
  -- satisfies its laws and enough fuel, remove answers the value that the seen list has under
  -- the key, and makes the transaction see the list without the key. Of shared memory nothing
  -- but the index changes. No other thread acts meanwhile.
  pub remove-erase :
      (fuel key : ℕ) (w : W) (bs es : Cells)
      → w.local.tx ≡ true
      → Views X laws list w bs es
      → length bs < fuel
      → length es < fuel
      → (v : W) × (remove X list fuel key w [] ≡ ok (lookup key es) v [])
        × Becomes X laws list w v bs (erase key es)
        × (v.shared ≡ record w.shared { index = v.shared.index })
  unfolding remove
  remove-erase fuel key w bs es tx v lt_bs lt =
      let w0 = writing X laws list w in
      let l =
        find_node-Located X laws list fuel key w0 bs es (Views-writing X laws list w bs es v) lt_bs
          lt in
      let (w1, run, now, kept) =
        remove_there w l.index fuel key l.pred l.next bs es l.found l.run l.place l.views in
      (
        w1,
        if_true (remove_tx X list fuel key) (remove_singleton X list fuel key) w [] tx ∙ run,
        now,
        kept,
      )
