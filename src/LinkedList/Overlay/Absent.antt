-- ===== src/LinkedList/Overlay/Absent.antt =====
-- datatypes/LinkedList.h: `putIfAbsent` in a transaction inserts a new key into the list that the
-- transaction sees, when no other thread acts meanwhile.
use transactional_data_struc.Base.{ℕ, ◌<◌, Bool, true, false, [], ◌≡◌, ◌∙◌, length}
use transactional_data_struc.Effect.{ok, if_true}
use transactional_data_struc.Memory.Solo.{Memory}
use transactional_data_struc.Memory.Storage.{read_set_emplace}
use transactional_data_struc.Index.{IndexOps}
use transactional_data_struc.Index.Laws.{IndexLaws}
use transactional_data_struc.Chain.Spec.{Cells, insert_absent, address, address-absent}
use transactional_data_struc.Chain.Shape.{At}
use transactional_data_struc.Chain.Place.{At-found, At-absent, At-address}
use transactional_data_struc.LinkedList.{LinkedList}
use transactional_data_struc.LinkedList.Find.{find_node}
use transactional_data_struc.LinkedList.Tx.{put_if_absent, put_if_absent_tx}
use transactional_data_struc.LinkedList.Singleton.{put_if_absent_singleton}
use transactional_data_struc.LinkedList.Words.{At-bound}
use transactional_data_struc.LinkedList.Overlay.{seen, sees}
use transactional_data_struc.LinkedList.Overlay.Search.{Views, find_node-Located}
use transactional_data_struc.LinkedList.Overlay.Insert.{
  own_val, Becomes, writing, located, Views-writing, put_new-Becomes, Becomes-read,
}

module _ (X : IndexOps) (laws : IndexLaws X) (list : LinkedList) where
  abbrev W : Type 0
  W = Memory X.State

  put_absent_there :
      (w : W) (i : X.State) (fuel key val s t : ℕ) (bs es : Cells) (b : Bool)
      → find_node X list fuel key (writing X laws list w) []
        ≡ ok (b, s, t) (located X laws list w i) []
      → At key list.head es b s t
      → Views X laws list (located X laws list w i) bs es
      → (v : W) × (put_if_absent_tx X list fuel key val w []
          ≡ ok (own_val w.shared.heap (address key es)) v [])
        × Becomes X laws list w v bs (insert_absent w.shared.fresh key val es)
  unfolding put_if_absent_tx seen insert_absent
  put_absent_there w i fuel key val s t bs es true run a v =
      let (m, e, fit, _, _, _) = At-found v.viewed.from a in
      let st = sees (located X laws list w i) t e fit in
      let (x, bound) = At-bound a in
      (
        record (located X laws list w i) {
          local = read_set_emplace t (located X laws list w i).local;
        },
        rw (run, st.at, At-address a, st.at),
        rw (insert_absent, bound) (Becomes-read X laws list w i t bs es st.at st.fit v),
      )
  put_absent_there w i fuel key val s t bs es false run a v =
      let (w2, ran, now) = put_new-Becomes X laws list w i key val s t bs es v a in
      let absent = At-absent 0 a v.viewed.ascending in
      (w2, rw (run, ran, address-absent key es absent), rw (insert_absent, absent) now)

  -- In a transaction that sees a sorted list over the committed one, with an index that
  -- satisfies its laws and enough fuel, putIfAbsent makes the transaction see the list with the
  -- key bound to the value where the key is new, and leaves the list where it is not. Of shared
  -- memory no more than a new node and the index change. The answer is none for a new key, and
  -- else the value of the node itself that has the key, not the one that the transaction sees.
  -- No other thread acts meanwhile.
  pub put_if_absent-insert_absent :
      (fuel key val : ℕ) (w : W) (bs es : Cells)
      → w.local.tx ≡ true
      → Views X laws list w bs es
      → length bs < fuel
      → length es < fuel
      → (v : W) × (put_if_absent X list fuel key val w []
          ≡ ok (own_val w.shared.heap (address key es)) v [])
        × Becomes X laws list w v bs (insert_absent w.shared.fresh key val es)
  unfolding put_if_absent
  put_if_absent-insert_absent fuel key val w bs es tx v lt_bs lt =
      let w0 = writing X laws list w in
      let l =
        find_node-Located X laws list fuel key w0 bs es (Views-writing X laws list w bs es v) lt_bs
          lt in
      let (w1, run, now) =
        put_absent_there w l.index fuel key val l.pred l.next bs es l.found l.run l.place l.views in
      (
        w1,
        if_true (put_if_absent_tx X list fuel key val) (put_if_absent_singleton X list fuel key val)
              w [] tx
            ∙ run,
        now,
      )
