-- ===== src/LinkedList/Overlay/Insert.antt =====
-- datatypes/LinkedList.h: `put` and `putIfAbsent` in a transaction are insertions into the list that
-- the transaction sees, when no other thread acts meanwhile.
use transactional_data_struc.Base.{
  ℕ, ◌<◌, Bool, true, false, Option, none, some, List, [], ◌∷◌, ◌≡◌, ◌≢◌, refl, ◌∙◌, length,
  update_ne, has-ne,
}
use transactional_data_struc.Effect.{ok, if_true}
use transactional_data_struc.Memory.{Ptr, Node, Heap}
use transactional_data_struc.Memory.Solo.{Memory}
use transactional_data_struc.Memory.Storage.{read_set_emplace, put_into_write_set, add_to_index_add}
use transactional_data_struc.Index.{IndexOps}
use transactional_data_struc.Index.Laws.{IndexLaws, val_at}
use transactional_data_struc.Chain.Spec.{Cells, addresses, insert, address, address-absent}
use transactional_data_struc.Chain.Shape.{At, At-mem}
use transactional_data_struc.Chain.Place.{At-before, At-found, At-absent, At-address}
use transactional_data_struc.LinkedList.{LinkedList}
use transactional_data_struc.LinkedList.Find.{find_node}
use transactional_data_struc.LinkedList.Tx.{put, put_tx, put_new}
use transactional_data_struc.LinkedList.Singleton.{put_singleton}
use transactional_data_struc.LinkedList.Search.{with_index}
use transactional_data_struc.LinkedList.Overlay.{IsFit, seen, Sees, sees}
use transactional_data_struc.LinkedList.Overlay.Get.{Views-read}
use transactional_data_struc.LinkedList.Overlay.Search.{Views, find_node-Located}
use transactional_data_struc.LinkedList.Overlay.Put.{
  with_value, with_new, put_found-run, put_new-run, Views-found, Views-new, fresh-new,
}

-- The value that the first of some nodes itself has.
abbrev pub own_val : Heap → List Ptr → Option ℕ
own_val h [] = none
own_val h (p ∷ ps) = val_at (h p)

module _ (X : IndexOps) (laws : IndexLaws X) (list : LinkedList) where
  abbrev W : Type 0
  W = Memory X.State

  -- After an operation that writes: the transaction sees the list `es` over the committed `bs`, and of
  -- shared memory no more than a new node and the index have changed.
  pub record Becomes (w v : W) (bs es : Cells) : Type 0 where
    pub views : Views X laws list v bs es
    pub heap : (p : Ptr) → p ≢ w.shared.fresh → v.shared.heap p ≡ w.shared.heap p
    pub gvc : v.shared.gvc ≡ w.shared.gvc
    pub retired : v.shared.retired ≡ w.shared.retired
    pub writes : v.local.read_only ≡ false
    pub running : v.local.tx ≡ w.local.tx
    pub version : v.local.read_version ≡ w.local.read_version

  -- `m_tx.get_local_transaction().readOnly = false;`
  abbrev pub writing : W → W
  writing w = record w { local = record w.local { read_only = false } }

  pub Views-writing :
      (w : W) (bs es : Cells) → Views X laws list w bs es → Views X laws list (writing w) bs es
  unfolding seen
  Views-writing w bs es v = record {
    committed = v.committed;
    viewed = v.viewed;
    covers = v.covers;
    indexed = v.indexed;
    committed_below = v.committed_below;
    viewed_below = v.viewed_below;
    written_below = v.written_below;
    valued = v.valued;
    tracks = record { once = v.tracks.once; written = v.tracks.written; read = v.tracks.read };
  }

  -- The memory that `find_node` leaves to `put`.
  abbrev pub located : W → X.State → W
  located w i = with_index X laws list (writing w) i

  Becomes-found :
      (w : W) (i : X.State) (key val s t : ℕ) (bs es : Cells) {m : Node}
      → Views X laws list (located w i) bs es
      → At key list.head es true s t
      → seen w.local w.shared.heap t ≡ some m
      → Sees (located w i) t m
      → Becomes w (with_value (located w i) t m val) bs (insert w.shared.fresh key val es)
  unfolding read_set_emplace put_into_write_set seen
  Becomes-found w i key val s t bs es v a e st = record {
    views = Views-found X laws list (located w i) bs es key val w.shared.fresh s t v a e st;
    heap = λ p ne. refl;
    gvc = refl;
    retired = refl;
    writes = refl;
    running = refl;
    version = refl;
  }

  Becomes-new :
      (w : W) (i : X.State) (key val s t : ℕ) (bs es : Cells) {m : Node}
      → Views X laws list (located w i) bs es
      → At key list.head es false s t
      → seen w.local w.shared.heap s ≡ some m
      → Sees (located w i) s m
      → Becomes w
          (with_new (located w i) list.self key val s m t)
          bs
          (insert w.shared.fresh key val es)
  unfolding read_set_emplace put_into_write_set add_to_index_add seen
  Becomes-new w i key val s t bs es v a e ss = record {
    views = Views-new X laws list (located w i) bs es key val s t v a e ss;
    heap = λ p ne. update_ne w.shared.heap w.shared.fresh _ p ne;
    gvc = refl;
    retired = refl;
    writes = refl;
    running = refl;
    version = refl;
  }

  -- The branch of a new key, for `put` and `putIfAbsent`.
  pub put_new-Becomes :
      (w : W) (i : X.State) (key val s t : ℕ) (bs es : Cells)
      → Views X laws list (located w i) bs es
      → At key list.head es false s t
      → (v : W) × (put_new list key val s t (located w i) [] ≡ ok none v [])
        × Becomes w v bs (insert w.shared.fresh key val es)
  unfolding seen
  put_new-Becomes w i key val s t bs es v a =
      let (m, e, fit, _) = At-before v.viewed.from a in
      let ss = sees (located w i) s e fit in
      let ne =
        has-ne s w.shared.fresh (list.head ∷ addresses es) (At-mem a)
          (fresh-new X laws list w es v.viewed_below) in
      (
        with_new (located w i) list.self key val s m t,
        put_new-run list (located w i) key val s t ss ne,
        Becomes-new w i key val s t bs es v a e ss,
      )

  pub Becomes-read :
      (w : W) (i : X.State) (t : ℕ) (bs es : Cells) {n : Node}
      → w.shared.heap t ≡ some n
      → IsFit w.local.read_version n
      → Views X laws list (located w i) bs es
      → Becomes w (record (located w i) { local = read_set_emplace t (located w i).local }) bs es
  unfolding read_set_emplace
  Becomes-read w i t bs es at fit v = record {
    views = Views-read X laws list (located w i) bs es t at fit v;
    heap = λ p ne. refl;
    gvc = refl;
    retired = refl;
    writes = refl;
    running = refl;
    version = refl;
  }

  put_there :
      (w : W) (i : X.State) (fuel key val s t : ℕ) (bs es : Cells) (b : Bool)
      → find_node X list fuel key (writing w) [] ≡ ok (b, s, t) (located w i) []
      → At key list.head es b s t
      → Views X laws list (located w i) bs es
      → (v : W) × (put_tx X list fuel key val w []
          ≡ ok (own_val w.shared.heap (address key es)) v [])
        × Becomes w v bs (insert w.shared.fresh key val es)
  unfolding put_tx seen
  put_there w i fuel key val s t bs es true run a v =
      let (m, e, fit, _, _, _) = At-found v.viewed.from a in
      let st = sees (located w i) t e fit in
      (
        with_value (located w i) t m val,
        rw (run, put_found-run (located w i) t val st, At-address a, st.at),
        Becomes-found w i key val s t bs es v a e st,
      )
  put_there w i fuel key val s t bs es false run a v =
      let (w2, ran, now) = put_new-Becomes w i key val s t bs es v a in
      (w2, rw (run, ran, address-absent key es (At-absent 0 a v.viewed.ascending)), now)

  -- In a transaction that sees a sorted list over the committed one, with an index that
  -- satisfies its laws and enough fuel, put makes the transaction see the list with the key
  -- bound to the new value. Of shared memory no more than a new node and the index change. The
  -- answer is none for a new key, and else the value of the node itself that has the key, not
  -- the one that the transaction sees. No other thread acts meanwhile.
  pub put-insert :
      (fuel key val : ℕ) (w : W) (bs es : Cells)
      → w.local.tx ≡ true
      → Views X laws list w bs es
      → length bs < fuel
      → length es < fuel
      → (v : W) × (put X list fuel key val w [] ≡ ok (own_val w.shared.heap (address key es)) v [])
        × Becomes w v bs (insert w.shared.fresh key val es)
  unfolding put
  put-insert fuel key val w bs es tx v lt_bs lt =
      let w0 = writing w in
      let l = find_node-Located X laws list fuel key w0 bs es (Views-writing w bs es v) lt_bs lt in
      let (w1, run, now) =
        put_there w l.index fuel key val l.pred l.next bs es l.found l.run l.place l.views in
      (
        w1,
        if_true (put_tx X list fuel key val) (put_singleton X list fuel key val) w [] tx ∙ run,
        now,
      )
