-- ===== src/LinkedList/Refine.antt =====
-- datatypes/LinkedList.h: `putSingleton` is the insertion into a sorted map, when no other thread acts
-- meanwhile.
use transactional_data_struc.Base.{
  ap, update_ne, none, ◌∙◌, ℕ, zero, suc, ◌+◌, ◌<◌, Bool, true, false, some, [], ◌∷◌, ◌≡◌, ◌≢◌,
  refl, sym, subst, arith, length, ne→==, Bool-cases, inl, inr, has, update, update_self, has-ne,
}
use native.Mathlib.Decide.{ℕ_discrete}
use transactional_data_struc.Effect.{ok}
use transactional_data_struc.Memory.{Ptr, null, Node}
use transactional_data_struc.Memory.Solo.{Memory, put_node}
use transactional_data_struc.Index.{IndexOps}
use transactional_data_struc.Index.Laws.{IndexLaws, val_at, val_at-update}
use transactional_data_struc.Chain.Spec.{Cells, addresses, lookup, insert}
use transactional_data_struc.Chain.Shape.{At-mem}
use transactional_data_struc.Chain.Place.{At-mem_next, At-before, At-found, At-absent}
use transactional_data_struc.Chain.Quiet.{IsQuiet}
use transactional_data_struc.Chain.Sorted.{
  IsSorted, IsSorted-insert, IsSorted-overwrite, addresses-insert, has-insert,
}
use transactional_data_struc.LinkedList.Words.{word_at, some_ne_none, At-bound, words-inserted}
use transactional_data_struc.LinkedList.{LinkedList}
use transactional_data_struc.LinkedList.Singleton.{put_singleton}
use transactional_data_struc.LinkedList.Find.{find_node_singleton}
use transactional_data_struc.LinkedList.Search.{with_index, Holds, Finds, find_node_singleton-Finds}
use transactional_data_struc.LinkedList.Locals.{overwritten-Overwritten, inserted-Inserted}
use transactional_data_struc.LinkedList.Steps.{
  overwritten, overwrite-run, inserted, relinked, after_insert, insert_before-run, append-run,
}

module _ (X : IndexOps) (laws : IndexLaws X) (list : LinkedList) where
  -- After a `put`: the list holds the new binding, and the clock, the thread's own memory and the
  -- retired nodes are as before. A key that is new leaves the version words of all nodes as they
  -- were.
  pub record Stored (w v : Memory X.State) (es : Cells) (key val : ℕ) : Type 0 where
    pub holds : Holds X laws list v (insert w.shared.fresh key val es)
    pub gvc : v.shared.gvc ≡ w.shared.gvc
    pub local : v.local ≡ w.local
    pub retired : v.shared.retired ≡ w.shared.retired
    pub words :
        lookup key es ≡ none
        → (p : Ptr) → p ≢ w.shared.fresh
        → word_at v.shared.heap p ≡ word_at w.shared.heap p

  abbrev W : Type 0
  W = Memory X.State

  put_over :
      (fuel key val : ℕ) (w : W) (es : Cells) (s t : ℕ) (i : X.State)
      → Holds X laws list w es
      → find_node_singleton X list fuel key w [] ≡ ok (true, s, t) (with_index X laws list w i) []
      → Finds X laws list w es key i true s t
      → (v : W) × (put_singleton X list (suc fuel) key val w [] ≡ ok (lookup key es) v [])
        × Stored w v es key val
  unfolding put_singleton
  put_over fuel key val w es s t i holds run found =
      let w1 = with_index X laws list w i in
      let (n, at_s, quiet_s, next) = At-before holds.sorted.from found.place in
      let (m, at_t, quiet_t, key_t, val_t, ne) = At-found holds.sorted.from found.place in
      let h' = update w.shared.heap t (some (overwritten w.shared.gvc val m)) in
      let f = w.shared.fresh in
      let sorted' : IsSorted IsQuiet h' list.head (insert f key val es) =
        IsSorted-overwrite f holds.sorted found.place
          (overwritten-Overwritten w.shared.heap w.shared.gvc val t at_t quiet_t) in
      let same = addresses-insert f val found.place in
      let apart : t ≢ list.head =
        has-ne t list.head (addresses es) (At-mem_next found.place) holds.sorted.distinct.0 in
      let kept : val_at (h' list.head) ≡ val_at (w.shared.heap list.head) =
        ap val_at (update_ne w.shared.heap t _ list.head (λ e. apart (sym e))) in
      (
        put_node w1 t (overwritten w.shared.gvc val m),
        rw (
          run,
          overwrite-run w1 key val s t (put_singleton X list fuel key val) at_s next at_t key_t
              quiet_t,
          val_t,
        ),
        record {
          holds = record {
            sorted = sorted';
            indexed =
                subst (laws.Valid h' list.head (insert f key val es))
                  (sym (update_self _ list.self i))
                  (laws.keeps f key val w.shared.heap h' list.head es i holds.sorted sorted' kept
                    same found.indexed);
            below = λ p j. holds.below p (subst (λ ps. has p (list.head ∷ ps) ≡ true) same j);
          };
          gvc = refl;
          local = refl;
          retired = refl;
          words = λ absent p ne.
              absurd (let (x, bound) = At-bound found.place in some_ne_none (sym bound ∙ absent));
        },
      )

  -- The addresses in use are below the next fresh one.
  fresh-new :
      (w : W) (es : Cells)
      → Holds X laws list w es
      → has w.shared.fresh (list.head ∷ addresses es) ≡ false
  fresh-new w es holds = elim (Bool-cases (has w.shared.fresh (list.head ∷ addresses es))) [
    | inl i ↦ absurd (omega (arith, holds.below w.shared.fresh i))
    | inr o ↦ o
  ]

  below-insert :
      (w : W) (es : Cells) (key val : ℕ)
      → Holds X laws list w es
      → (p : Ptr) → has p (list.head ∷ addresses (insert w.shared.fresh key val es)) ≡ true
      → p < w.shared.fresh + 1
  below-insert w es key val holds p j = elim (Bool-cases (has p (list.head ∷ addresses es))) [
    | inl i ↦ omega (arith, holds.below p i)
    | inr o ↦ elim (ℕ_discrete p w.shared.fresh) [
      | yes e ↦ omega arith
      | no ne ↦ absurd (ground (arith, has-insert w.shared.fresh key val p es ne (ground arith)))
    ]
  ]

  inserted-Stored :
      (w : W) (es : Cells) (key val s t : ℕ) (i : X.State) {n : Node}
      → Holds X laws list w es
      → Finds X laws list w es key i false s t
      → w.shared.heap s ≡ some n
      → IsQuiet n
      → (i' : X.State) × (X.add w.shared.fresh
            (after_insert X list (with_index X laws list w i) key val s t n i').shared.heap
            ((with_index X laws list w i).shared.index list.self)
          ≡ some i')
        × (s ≢ w.shared.fresh)
        × Stored w (after_insert X list (with_index X laws list w i) key val s t n i') es key val
  inserted-Stored w es key val s t i {n} holds found at_s quiet_s =
      let f = w.shared.fresh in
      let ne : s ≢ f =
        has-ne s f (list.head ∷ addresses es) (At-mem found.place) (fresh-new w es holds) in
      let h' =
        update (update w.shared.heap s (some (relinked f n))) f
          (some (inserted w.shared.gvc key val t)) in
      let sorted' : IsSorted IsQuiet h' list.head (insert f key val es) =
        IsSorted-insert holds.sorted found.place (fresh-new w es holds) (
          inserted-Inserted w.shared.heap w.shared.gvc key val s t f at_s quiet_s
            (omega (arith, holds.below list.head (ground arith))) ne) in
      let apart : list.head ≢ f =
        has-ne list.head f (list.head ∷ addresses es) (ground arith) (fresh-new w es holds) in
      let kept : val_at (h' list.head) ≡ val_at (w.shared.heap list.head) =
        ap val_at (
          update_ne (update w.shared.heap s (some (relinked f n))) f
            (some (inserted w.shared.gvc key val t)) list.head apart)
        ∙ val_at-update w.shared.heap s list.head _ at_s refl in
      let (i', told, valid) =
        laws.adds f key val w.shared.heap h' list.head es i holds.sorted sorted' kept
          found.indexed in
      (
        i',
        subst (λ x. X.add f h' x ≡ some i') (sym (update_self w.shared.index list.self i)) told,
        ne,
        record {
          holds = record {
            sorted = sorted';
            indexed =
                subst (laws.Valid h' list.head (insert f key val es))
                  (sym (update_self (update w.shared.index list.self i) list.self i')) valid;
            below = below-insert w es key val holds;
          };
          gvc = refl;
          local = refl;
          retired = refl;
          words = λ absent p new.
              words-inserted w.shared.heap s f (inserted w.shared.gvc key val t) at_s quiet_s p new;
        },
      )

  put_before :
      (fuel key val : ℕ) (w : W) (es : Cells) (s t : ℕ) (i : X.State)
      → Holds X laws list w es
      → find_node_singleton X list fuel key w [] ≡ ok (false, s, t) (with_index X laws list w i) []
      → Finds X laws list w es key i false s t
      → t ≢ null
      → (v : W) × (put_singleton X list (suc fuel) key val w [] ≡ ok (lookup key es) v [])
        × Stored w v es key val
  unfolding put_singleton
  put_before fuel key val w es s t i holds run found more =
      let w1 = with_index X laws list w i in
      let retry = put_singleton X list fuel key val in
      let (n, at_s, quiet_s, next) = At-before holds.sorted.from found.place in
      let (i', told, ne, put) = inserted-Stored w es key val s t i holds found at_s quiet_s in
      let absent = At-absent 0 found.place holds.sorted.ascending in
      (
        after_insert X list w1 key val s t n i',
        rw (
          run,
          ne→== t null more,
          insert_before-run X list w1 key val s t retry at_s next quiet_s ne told,
          absent,
        ),
        put,
      )

  put_end :
      (fuel key val : ℕ) (w : W) (es : Cells) (s : ℕ) (i : X.State)
      → Holds X laws list w es
      → find_node_singleton X list fuel key w []
        ≡ ok (false, s, null) (with_index X laws list w i) []
      → Finds X laws list w es key i false s null
      → (v : W) × (put_singleton X list (suc fuel) key val w [] ≡ ok (lookup key es) v [])
        × Stored w v es key val
  unfolding put_singleton
  put_end fuel key val w es s i holds run found =
      let w1 = with_index X laws list w i in
      let retry = put_singleton X list fuel key val in
      let (n, at_s, quiet_s, next) = At-before holds.sorted.from found.place in
      let (i', told, ne, put) = inserted-Stored w es key val s null i holds found at_s quiet_s in
      let absent = At-absent 0 found.place holds.sorted.ascending in
      (
        after_insert X list w1 key val s null n i',
        rw (run, append-run X list w1 key val s retry at_s next quiet_s ne told, absent),
        put,
      )

  -- On a memory that holds a sorted list, with an index that satisfies its laws and enough fuel,
  -- putSingleton answers the value that was under the key, and the memory then holds the list
  -- with the key bound to the new value. No other thread acts meanwhile.
  pub put_singleton-insert :
      (fuel key val : ℕ) (w : W) (es : Cells)
      → Holds X laws list w es
      → length es + 3 < fuel
      → (v : W) × (put_singleton X list fuel key val w [] ≡ ok (lookup key es) v [])
        × Stored w v es key val
  put_singleton-insert zero key val w es holds lt = absurd (omega arith)
  put_singleton-insert (suc fuel) key val w es holds lt =
      let (b, s, t, i, run, found) =
        find_node_singleton-Finds X laws list fuel key w es holds (omega arith) in
      choose b s t i run found
    where
      choose :
          (b : Bool) (s t : ℕ) (i : X.State)
          → find_node_singleton X list fuel key w [] ≡ ok (b, s, t) (with_index X laws list w i) []
          → Finds X laws list w es key i b s t
          → (v : W) × (put_singleton X list (suc fuel) key val w [] ≡ ok (lookup key es) v [])
            × Stored w v es key val
      choose true s t i run found = put_over fuel key val w es s t i holds run found
      choose false s t i run found = elim (ℕ_discrete t null) [
        | yes end ↦
            put_end fuel key val w es s i holds
              (subst
                (λ x.
                  find_node_singleton X list fuel key w []
                  ≡ ok (false, s, x) (with_index X laws list w i) [])
                end run)
              (subst (Finds X laws list w es key i false s) end found)
        | no more ↦ put_before fuel key val w es s t i holds run found more
      ]
