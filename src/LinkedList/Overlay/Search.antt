-- ===== src/LinkedList/Overlay/Search.antt =====
-- datatypes/LinkedList.h: `find_node` in a transaction, when no other thread acts meanwhile. The
-- index knows the committed list; the search ends in the list as the transaction sees it.
use transactional_data_struc.Base.{
  ℕ, zero, suc, ◌<◌, ◌≤◌, Bool, true, some, none, [], ◌∷◌, ◌≡◌, ◌≢◌, refl, sym, arith, length,
  ne→==, update-update, update_self, subst, has, find, ◌⊎◌, inl, inr, is_some, none,
}
use native.Mathlib.Decide.{ℕ_discrete}
use transactional_data_struc.Effect.{ok}
use transactional_data_struc.Memory.{Ptr, Node}
use transactional_data_struc.Memory.Solo.{Memory}
use transactional_data_struc.Memory.Storage.{Local}
use transactional_data_struc.Memory.Nodes
use transactional_data_struc.Index.{IndexOps}
use transactional_data_struc.Index.Laws.{IndexLaws, val_at}
use transactional_data_struc.Chain.Spec.{Cells, addresses}
use transactional_data_struc.Chain.Shape.{
  At, From-head, From-Leads, At-Leads, Leads, here, ahead, length-Leads,
}
use transactional_data_struc.Chain.Sorted.{IsSorted}
use transactional_data_struc.Chain.Cover.{
  has_cell, smaller, smaller-length, Leads-Before, cell-Leads, From-cell, From-Onward, IsSorted-map,
}
use transactional_data_struc.LinkedList.{LinkedList}
use transactional_data_struc.LinkedList.Find.{is_mine_deleted, skip_deleted, get_pred, find_node}
use transactional_data_struc.LinkedList.Search.{with_index}
use transactional_data_struc.LinkedList.Overlay.{
  fit-IsQuiet, Sees, sees, check_node-run, get_next-run,
}
use transactional_data_struc.LinkedList.Overlay.Sets.{Tracks}
use transactional_data_struc.LinkedList.Overlay.Walk.{FitIn, seen_in, find_from-At}

-- Each cell of the committed list `bs` is one of the list `es` that the transaction sees, unless the
-- transaction has deleted it.
abbrev pub Covers : Local → Cells → Cells → Type 0
Covers l bs es =
    (p k : ℕ)
    → has_cell p k bs ≡ true
    → (has_cell p k es ≡ true) ⊎ (is_mine_deleted (find p l.write_set) ≡ true)

module _ (X : IndexOps) (laws : IndexLaws X) (list : LinkedList) where
  -- The memory holds the committed list `bs`, which the index knows, and the transaction sees the
  -- list `es`.
  pub record Views (w : Memory X.State) (bs es : Cells) : Type 0 where
    pub committed : IsSorted (FitIn w) w.shared.heap list.head bs
    pub viewed : IsSorted (FitIn w) (seen_in w) list.head es
    pub covers : Covers w.local bs es
    pub indexed : laws.Valid w.shared.heap list.head bs (w.shared.index list.self)
    pub committed_below : (p : Ptr) → has p (list.head ∷ addresses bs) ≡ true → p < w.shared.fresh
    pub viewed_below : (p : Ptr) → has p (list.head ∷ addresses es) ≡ true → p < w.shared.fresh
    pub written_below : (p : Ptr) → w.shared.fresh ≤ p → find p w.local.write_set ≡ none
    pub valued : (p : Ptr) → has p (addresses es) ≡ true → is_some (val_at (w.shared.heap p)) ≡ true
    pub tracks : Tracks w.local.read_version w.shared.heap w.local

  -- Another state of the index that knows the list.
  Views-index :
      (w : Memory X.State) (bs es : Cells) (i : X.State)
      → Views w bs es
      → laws.Valid w.shared.heap list.head bs i
      → Views (with_index X laws list w i) bs es
  Views-index w bs es i v valid = record {
    committed = v.committed;
    viewed = v.viewed;
    covers = v.covers;
    indexed = subst (laws.Valid w.shared.heap list.head bs) (sym (update_self _ list.self i)) valid;
    committed_below = v.committed_below;
    viewed_below = v.viewed_below;
    written_below = v.written_below;
    valued = v.valued;
    tracks = v.tracks;
  }

  skip_deleted-live :
      (fuel : ℕ) (w : Memory X.State) (p : Ptr) {m : Node}
      → Sees w p m
      → skip_deleted X list (suc fuel) p w [] ≡ ok p w []
  unfolding skip_deleted Nodes.is_deleted
  skip_deleted-live fuel w p s = rw (check_node-run w p s.at s.fit, s.kept, s.at, s.fit.live)

  skip_deleted-next :
      (fuel key : ℕ) (w : Memory X.State) (p : Ptr) {n : Node}
      → w.shared.heap p ≡ some n
      → FitIn w n
      → is_mine_deleted (find p w.local.write_set) ≡ true
      → p ≢ list.head
      → n.key ≡ key
      → skip_deleted X list (suc fuel) p w [] ≡ get_pred X list fuel key w []
  unfolding skip_deleted get_pred
  skip_deleted-next fuel key w p at fit gone ne hit =
      rw (check_node-run w p at fit, gone, ne→== p list.head ne, at, hit)

  -- A node before the place of a key is before the places of the keys above it.
  Leads-mono : {j key p r : ℕ} {es ds : Cells} → j ≤ key → Leads j p es r ds → Leads key p es r ds
  Leads-mono le here = here
  Leads-mono le (ahead lt l) = ahead (omega arith) (Leads-mono le l)

  -- What `getPred` ends with: a node that the transaction sees before the place of the key.
  record Preds (w : Memory X.State) (bs es : Cells) (fuel key : ℕ) : Type 0 where
    pred : Ptr
    index : X.State
    rest : Cells
    run : get_pred X list fuel key w [] ≡ ok pred (with_index X laws list w index) []
    leads : Leads key list.head es pred rest
    indexed : laws.Valid w.shared.heap list.head bs index

  get_pred-Preds :
      (fuel key : ℕ) (w : Memory X.State) (bs es : Cells)
      → Views w bs es
      → smaller key bs < fuel
      → Preds w bs es fuel key
  unfolding get_pred
  get_pred-Preds zero key w bs es v lt = absurd (omega arith)
  get_pred-Preds (suc fuel) key w bs es v lt =
      let (p, i, ds, got, leads, valid) =
        laws.finds key w.shared.heap list.head bs (w.shared.index list.self)
          (IsSorted-map (fit-IsQuiet w.local.read_version) v.committed) v.indexed in
      let w1 = with_index X laws list w i in
      let live : (cs : Cells) → Leads key list.head es p cs → Preds w bs es (suc fuel) key = λ cs l.
        let (m, f) = From-Leads l v.viewed.from in
        let s = sees w1 p (From-head f).0 (From-head f).1 in
        record {
          pred = p;
          index = i;
          rest = cs;
          run = rw (got, skip_deleted-live fuel w1 p s);
          leads = l;
          indexed = valid;
        } in
      elim (ℕ_discrete p list.head) [
        | yes e ↦ live es (subst (λ x. Leads key list.head es x es) (sym e) here)
        | no ne ↦ elim (Leads-Before leads) [
          | inl e ↦ absurd (ne e)
          | inr b ↦ elim (v.covers p b.key_of b.cell) [
            | inl there ↦
                let (cs, l) =
                  cell-Leads key p b.key_of 0 list.head es there b.less v.viewed.ascending in
                live cs l
            | inr gone ↦
                let (n, at, fit, hit) = From-cell p b.key_of v.committed.from b.cell in
                let again =
                  get_pred-Preds fuel b.key_of w1 bs es (Views-index w bs es i v valid)
                    (omega (arith, b.fewer)) in
                record {
                  pred = again.pred;
                  index = again.index;
                  rest = again.rest;
                  run = rw (
                    got,
                    skip_deleted-next fuel b.key_of w1 p at fit gone ne hit,
                    again.run,
                    update-update,
                  );
                  leads = Leads-mono (omega (arith, b.less)) again.leads;
                  indexed = again.indexed;
                }
          ]
        ]
      ]

  -- What `find_node` ends with: the place of the key in the list that the transaction sees.
  pub record Located (w : Memory X.State) (bs es : Cells) (fuel key : ℕ) : Type 0 where
    pub found : Bool
    pub pred : Ptr
    pub next : Ptr
    pub index : X.State
    pub run :
        find_node X list fuel key w [] ≡ ok (found, pred, next) (with_index X laws list w index) []
    pub place : At key list.head es found pred next
    pub views : Views (with_index X laws list w index) bs es

  pub find_node-Located :
      (fuel key : ℕ) (w : Memory X.State) (bs es : Cells)
      → Views w bs es
      → length bs < fuel
      → length es < fuel
      → Located w bs es fuel key
  unfolding find_node
  find_node-Located zero key w bs es v lt_bs lt = absurd (omega arith)
  find_node-Located (suc fuel) key w bs es v lt_bs lt =
      let g = get_pred-Preds (suc fuel) key w bs es v (omega (arith, smaller-length key bs)) in
      let (m, f) = From-Leads g.leads v.viewed.from in
      let w1 = with_index X laws list w g.index in
      let s = sees w1 g.pred (From-head f).0 (From-head f).1 in
      let (b, s1, t1, run, a) =
        find_from-At (suc fuel) key w1 m.next f refl (omega (arith, length-Leads g.leads)) in
      record {
        found = b;
        pred = s1;
        next = t1;
        index = g.index;
        run = rw (g.run, get_next-run w1 g.pred s (From-Onward f), run);
        place = At-Leads g.leads a;
        views = Views-index w bs es g.index v g.indexed;
      }
