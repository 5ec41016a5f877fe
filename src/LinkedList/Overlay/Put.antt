-- ===== src/LinkedList/Overlay/Put.antt =====
-- datatypes/LinkedList.h: what `put` and `putIfAbsent` in a transaction do at the place of the key,
-- and what the transaction sees afterwards, when no other thread acts meanwhile.
use transactional_data_struc.Base.{
  ℕ, ◌+◌, ◌<◌, true, false, none, some, [], ◌∷◌, ◌≡◌, ◌≢◌, refl, ◌∙◌, arith, update, update-update,
  update_self, update_ne, has, has-later, has-ne, find, subst, inl, inr, Option-cases, Bool-cases,
  is_some,
}
use native.Mathlib.Decide.{ℕ_discrete}
use transactional_data_struc.Effect.{ok}
use transactional_data_struc.Memory.{Ptr, Node, get_new_node}
use transactional_data_struc.Memory.Solo.{Memory}
use transactional_data_struc.Memory.Storage.{put_into_write_set, read_set_emplace, add_to_index_add}
use transactional_data_struc.Node.Word
use transactional_data_struc.Index.{IndexOps}
use transactional_data_struc.Index.Laws.{IndexLaws, val_at}
use transactional_data_struc.Chain.Spec.{Cells, addresses, insert}
use transactional_data_struc.Chain.Shape.{At, At-mem}
use transactional_data_struc.Chain.Place.{At-mem_next}
use transactional_data_struc.Chain.Sorted.{
  IsSorted-insert, IsSorted-overwrite, addresses-insert, has-insert,
}
use transactional_data_struc.Chain.Cover.{has_cell-insert, IsSorted-frame}
use transactional_data_struc.LinkedList.{LinkedList}
use transactional_data_struc.LinkedList.Tx.{put_found, put_new}
use transactional_data_struc.LinkedList.Overlay.{IsFit, seen, Sees, get_val-run}
use transactional_data_struc.LinkedList.Overlay.Sets.{Tracks-put, Tracks-index_add, Tracks-new}
use transactional_data_struc.LinkedList.Overlay.Get.{Views-read}
use transactional_data_struc.LinkedList.Overlay.Search.{Views}
use transactional_data_struc.LinkedList.Overlay.Walk.{seen_in}
use transactional_data_struc.LinkedList.Overlay.Write.{
  Covers-put, below-put, seen-Overwritten, seen-Inserted,
}

module _ {I : Type 0} where
  -- After `put` on a node `t` that is seen as `m`.
  abbrev pub with_value : Memory I → Ptr → Node → ℕ → Memory I
  with_value w t m val = record w {
    local = read_set_emplace t (put_into_write_set t m.next (some val) false w.local);
  }

  pub put_found-run :
      (w : Memory I) (t val : ℕ) {m : Node}
      → (s : Sees w t m) → put_found val t w [] ≡ ok s.own.val (with_value w t m val) []
  unfolding put_found
  put_found-run w t val {m} s = elim (Option-cases (find t w.local.write_set)) [
    | inl new ↦ rw (new, s.at, s.at, s.laid, new)
    | inr (e, old) ↦
        let kept : e.deleted ≡ false = ground (arith, s.kept, old) in
        rw (old, s.at, s.laid, old, kept)
  ]

-- The node that `put` makes for a new key.
abbrev pub made : ℕ → ℕ → Ptr → Node
made key val t = record { key = key; val = some val; next = t; word = 0 }

pub made-IsFit : (rv key val : ℕ) (t : Ptr) → IsFit rv (made key val t)
unfolding Word.is_locked Word.is_deleted Word.get_version Word.is_same_version_and_singleton
made-IsFit rv key val t = record {
  free = ground arith;
  live = ground arith;
  old = ground arith;
  several = ground arith;
}

module _ {I : Type 0} where
  -- After `put` of a new key between `s`, which is seen as `m`, and `t`.
  abbrev pub with_new : Memory I → ℕ → ℕ → ℕ → Ptr → Node → Ptr → Memory I
  with_new w self key val s m t = record {
    shared = record w.shared {
      heap = update w.shared.heap w.shared.fresh (some (made key val t));
      fresh = w.shared.fresh + 1;
    };
    local = read_set_emplace s (
        add_to_index_add self w.shared.fresh
          (put_into_write_set s w.shared.fresh m.val false w.local));
  }

module _ {I : Type 0} (list : LinkedList) where
  pub put_new-run :
      (w : Memory I) (key val s t : ℕ) {m : Node}
      → Sees w s m
      → s ≢ w.shared.fresh
      → put_new list key val s t w [] ≡ ok none (with_new w list.self key val s m t) []
  unfolding put_new get_new_node
  put_new-run w key val s t {m} sees_s ne =
      let f = w.shared.fresh in
      let w1 = record w {
        shared = record w.shared {
          heap = update w.shared.heap f (some (made key val t));
          fresh = f + 1;
        };
      } in
      let sees1 : Sees w1 s m = record {
        own = sees_s.own;
        at = update_ne w.shared.heap f _ s ne ∙ sees_s.at;
        key = sees_s.key;
        laid = sees_s.laid;
        fit = sees_s.fit;
        kept = sees_s.kept;
      } in
      rw (update_self, update-update, get_val-run w1 s sees1)

module _ (X : IndexOps) (laws : IndexLaws X) (list : LinkedList) where
  abbrev W : Type 0
  W = Memory X.State

  pub Views-found :
      (w : W) (bs es : Cells) (key val f s t : ℕ) {m : Node}
      → Views X laws list w bs es
      → At key list.head es true s t
      → seen_in w t ≡ some m
      → Sees w t m
      → Views X laws list (with_value w t m val) bs (insert f key val es)
  unfolding put_into_write_set
  Views-found w bs es key val f s t {m} v a e st =
      let same = addresses-insert f val a in
      let w1 = record w { local = put_into_write_set t m.next (some val) false w.local } in
      Views-read X laws list w1 bs (insert f key val es) t st.at st.fit (record {
        committed = v.committed;
        viewed = IsSorted-overwrite f v.viewed a (
            seen-Overwritten w.local.read_version w.local w.shared.heap t val st.at st.fit e
              st.key);
        covers =
            Covers-put t m.next (some val) false w.local bs es (insert f key val es) v.covers
              (λ q k i. inr (has_cell-insert f key val q k es i)) st.kept;
        indexed = v.indexed;
        committed_below = v.committed_below;
        viewed_below = λ p j. v.viewed_below p (subst (λ ps. has p (list.head ∷ ps) ≡ true) same j);
        written_below =
            below-put t m.next (some val) false w.local w.shared.fresh
              (v.viewed_below t (has-later t list.head (addresses es) (At-mem_next a)))
              v.written_below;
        valued = λ p j. v.valued p (subst (λ ps. has p ps ≡ true) same j);
        tracks = Tracks-put t m.next (some val) false st.at st.fit v.tracks;
      })

  -- The addresses in use are below the next fresh one.
  pub fresh-new :
      (w : W) (es : Cells)
      → ((p : Ptr) → has p (list.head ∷ addresses es) ≡ true → p < w.shared.fresh)
      → has w.shared.fresh (list.head ∷ addresses es) ≡ false
  fresh-new w es below = elim (Bool-cases (has w.shared.fresh (list.head ∷ addresses es))) [
    | inl i ↦ absurd (omega (arith, below w.shared.fresh i))
    | inr o ↦ o
  ]

  below-insert :
      (w : W) (es : Cells) (key val : ℕ)
      → ((p : Ptr) → has p (list.head ∷ addresses es) ≡ true → p < w.shared.fresh)
      → (p : Ptr) → has p (list.head ∷ addresses (insert w.shared.fresh key val es)) ≡ true
      → p < w.shared.fresh + 1
  below-insert w es key val below p j = elim (Bool-cases (has p (list.head ∷ addresses es))) [
    | inl i ↦ omega (arith, below p i)
    | inr o ↦ elim (ℕ_discrete p w.shared.fresh) [
      | yes e ↦ omega arith
      | no ne ↦ absurd (ground (arith, has-insert w.shared.fresh key val p es ne (ground arith)))
    ]
  ]

  valued-insert :
      (w : W) (es : Cells) (key val : ℕ) (t : Ptr)
      → ((p : Ptr) → has p (addresses es) ≡ true → is_some (val_at (w.shared.heap p)) ≡ true)
      → (p : Ptr) → has p (addresses (insert w.shared.fresh key val es)) ≡ true
      → is_some (val_at (update w.shared.heap w.shared.fresh (some (made key val t)) p)) ≡ true
  valued-insert w es key val t valued p j = elim (ℕ_discrete p w.shared.fresh) [
    | yes e ↦ rw (e, update_self)
    | no ne ↦ elim (Bool-cases (has p (addresses es))) [
      | inl i ↦
          rw (update_ne w.shared.heap w.shared.fresh (some (made key val t)) p ne) (valued p i)
      | inr o ↦ absurd (ground (arith, has-insert w.shared.fresh key val p es ne o))
    ]
  ]

  pub Views-new :
      (w : W) (bs es : Cells) (key val s t : ℕ) {m : Node}
      → Views X laws list w bs es
      → At key list.head es false s t
      → seen_in w s ≡ some m
      → Sees w s m
      → Views X laws list (with_new w list.self key val s m t) bs (insert w.shared.fresh key val es)
  unfolding put_into_write_set add_to_index_add seen
  Views-new w bs es key val s t {m} v a e ss =
      let f = w.shared.fresh in
      let h' = update w.shared.heap f (some (made key val t)) in
      let new = fresh-new w es v.viewed_below in
      let ne : s ≢ f = has-ne s f (list.head ∷ addresses es) (At-mem a) new in
      let same : (r : Ptr) → has r (list.head ∷ addresses bs) ≡ true → h' r ≡ w.shared.heap r =
        λ r i.
          update_ne w.shared.heap f _ r
            (has-ne r f (list.head ∷ addresses bs) i (fresh-new w bs v.committed_below)) in
      let w1 : W = record {
        shared = record w.shared { heap = h'; fresh = f + 1 };
        local = add_to_index_add list.self f (put_into_write_set s f m.val false w.local);
      } in
      Views-read X laws list w1 bs (insert f key val es) s
        (update_ne w.shared.heap f _ s ne ∙ ss.at) ss.fit
        (record {
          committed = IsSorted-frame v.committed same;
          viewed = IsSorted-insert v.viewed a new (
              seen-Inserted w.local.read_version w.local w.shared.heap key val s t f h' ss.at ss.fit
                e ss.key (omega (arith, v.viewed_below list.head (ground arith))) ne
                (v.written_below f (omega arith)) (update_self w.shared.heap f _) refl refl refl
                (made-IsFit w.local.read_version key val t)
                (λ r ne_f. update_ne w.shared.heap f _ r ne_f));
          covers =
              Covers-put s f m.val false w.local bs es (insert f key val es) v.covers
                (λ q k i. inr (has_cell-insert f key val q k es i)) ss.kept;
          indexed = laws.frames w.shared.heap h' list.head bs _ same v.indexed;
          committed_below = λ p i. omega (arith, v.committed_below p i);
          viewed_below = below-insert w es key val v.viewed_below;
          written_below =
              below-put s f m.val false w.local (f + 1) (omega (arith, v.viewed_below s (At-mem a)))
                (λ q le. v.written_below q (omega arith));
          valued = valued-insert w es key val t v.valued;
          tracks = Tracks-index_add list.self f (
              Tracks-put s f m.val false (update_ne w.shared.heap f _ s ne ∙ ss.at) ss.fit (
                Tracks-new f h' (update_self w.shared.heap f _)
                  (made-IsFit w.local.read_version key val t)
                  (λ r ne_f. update_ne w.shared.heap f _ r ne_f) v.tracks));
        })
