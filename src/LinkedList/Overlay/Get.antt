-- ===== src/LinkedList/Overlay/Get.antt =====
-- datatypes/LinkedList.h: `get` in a transaction is the lookup in the list that the transaction sees,
-- when no other thread acts meanwhile.
use transactional_data_struc.Base.{ℕ, ◌<◌, Bool, true, false, [], ◌≡◌, refl, ◌∙◌, length, some}
use transactional_data_struc.Effect.{ok, if_true}
use transactional_data_struc.Memory.{Ptr, Node}
use transactional_data_struc.Memory.Solo.{Memory}
use transactional_data_struc.Memory.Storage.{read_set_emplace}
use transactional_data_struc.Index.{IndexOps}
use transactional_data_struc.Index.Laws.{IndexLaws}
use transactional_data_struc.Chain.Spec.{Cells, lookup}
use transactional_data_struc.Chain.Shape.{At}
use transactional_data_struc.Chain.Place.{At-before, At-found, At-absent}
use transactional_data_struc.LinkedList.{LinkedList}
use transactional_data_struc.LinkedList.Find.{find_node}
use transactional_data_struc.LinkedList.Tx.{get, get_tx}
use transactional_data_struc.LinkedList.Singleton.{get_singleton}
use transactional_data_struc.LinkedList.Search.{with_index}
use transactional_data_struc.LinkedList.Overlay.{IsFit, seen, sees, current_val-run}
use transactional_data_struc.LinkedList.Overlay.Sets.{Tracks-read}
use transactional_data_struc.LinkedList.Overlay.Search.{Views, find_node-Located}

module _ (X : IndexOps) (laws : IndexLaws X) (list : LinkedList) where
  -- After a `get`: the node before the place of the key has gone into the read set, and no more than
  -- that and the index has changed.
  pub record Got (w v : Memory X.State) (bs es : Cells) (key : ℕ) : Type 0 where
    pub found : Bool
    pub pred : Ptr
    pub next : Ptr
    pub place : At key list.head es found pred next
    pub views : Views X laws list v bs es
    pub local : v.local ≡ read_set_emplace pred w.local
    pub heap : v.shared.heap ≡ w.shared.heap
    pub gvc : v.shared.gvc ≡ w.shared.gvc
    pub retired : v.shared.retired ≡ w.shared.retired

  pub Views-read :
      (w : Memory X.State) (bs es : Cells) (p : Ptr) {n : Node}
      → w.shared.heap p ≡ some n
      → IsFit w.local.read_version n
      → Views X laws list w bs es
      → Views X laws list (record w { local = read_set_emplace p w.local }) bs es
  unfolding read_set_emplace seen
  Views-read w bs es p at fit v = record {
    committed = v.committed;
    viewed = v.viewed;
    covers = v.covers;
    indexed = v.indexed;
    committed_below = v.committed_below;
    viewed_below = v.viewed_below;
    written_below = v.written_below;
    valued = v.valued;
    tracks = Tracks-read p at fit v.tracks;
  }

  answers :
      (fuel key : ℕ) (w w1 : Memory X.State) (bs es : Cells) (b : Bool) (s t : Ptr)
      → find_node X list fuel key w [] ≡ ok (b, s, t) w1 []
      → At key list.head es b s t
      → Views X laws list w1 bs es
      → get_tx X list fuel key w []
        ≡ ok (lookup key es) (record w1 { local = read_set_emplace s w1.local }) []
  unfolding get_tx
  answers fuel key w w1 bs es true s t run a v =
      let (k, e, good, _) = At-before v.viewed.from a in
      let ss = sees w1 s e good in
      let v1 = Views-read w1 bs es s ss.at ss.fit v in
      let (m, at, fit, _, val, _) = At-found v1.viewed.from a in
      let w2 = record w1 { local = read_set_emplace s w1.local } in
      rw (run, current_val-run w2 t (sees w2 t at fit), val)
  answers fuel key w w1 bs es false s t run a v = rw (run, At-absent 0 a v.viewed.ascending)

  -- In a transaction that sees a sorted list over the committed one, with an index that
  -- satisfies its laws and enough fuel, get answers the value that the seen list has under the
  -- key. The node before the key's place goes into the read set; beyond that no more than the
  -- index changes. No other thread acts meanwhile.
  pub get-lookup :
      (fuel key : ℕ) (w : Memory X.State) (bs es : Cells)
      → w.local.tx ≡ true
      → Views X laws list w bs es
      → length bs < fuel
      → length es < fuel
      → (v : Memory X.State) × (get X list fuel key w [] ≡ ok (lookup key es) v [])
        × Got w v bs es key
  unfolding get
  get-lookup fuel key w bs es tx v lt_bs lt =
      let l = find_node-Located X laws list fuel key w bs es v lt_bs lt in
      let w1 = with_index X laws list w l.index in
      let (n, e, fit, _) = At-before l.views.viewed.from l.place in
      let ss = sees w1 l.pred e fit in
      (
        record w1 { local = read_set_emplace l.pred w1.local },
        if_true (get_tx X list fuel key) (get_singleton X list fuel key) w [] tx
            ∙ answers fuel key w w1 bs es l.found l.pred l.next l.run l.place l.views,
        record {
          found = l.found;
          pred = l.pred;
          next = l.next;
          place = l.place;
          views = Views-read w1 bs es l.pred ss.at ss.fit l.views;
          local = refl;
          heap = refl;
          gvc = refl;
          retired = refl;
        },
      )
