-- ===== src/LinkedList/RefineRemove.antt =====
-- datatypes/LinkedList.h: `removeSingleton` is the removal of a binding from a sorted map, when no
-- other thread acts meanwhile.
use transactional_data_struc.Base.{
  has-ne, update_ne, ℕ, zero, suc, ◌+◌, ◌<◌, Bool, true, false, some, [], ◌∷◌, ◌++◌, ◌≡◌, ◌≢◌, refl,
  sym, ◌∙◌, ap, subst, arith, length, has, update, update_self, Bool-cases, inl, inr,
}
use mathlib.Core.List.{append-nil}
use transactional_data_struc.Effect.{ok}
use transactional_data_struc.Memory.{Ptr}
use transactional_data_struc.Memory.Solo.{Memory}
use transactional_data_struc.Index.{IndexOps}
use transactional_data_struc.Index.Laws.{IndexLaws, val_at, val_at-update}
use transactional_data_struc.Chain.Spec.{
  Cells, addresses, lookup, erase, address, erase-absent, address-absent,
}
use transactional_data_struc.Chain.Place.{
  At-before, At-found, At-absent, At-mem_next, At-ne, At-address,
}
use transactional_data_struc.Chain.Quiet.{IsQuiet}
use transactional_data_struc.Chain.Sorted.{IsSorted, IsSorted-erase, has-erase}
use transactional_data_struc.LinkedList.{LinkedList}
use transactional_data_struc.LinkedList.Find.{find_node_singleton}
use transactional_data_struc.LinkedList.Singleton.{remove_singleton}
use transactional_data_struc.LinkedList.Search.{with_index, Holds, Finds, find_node_singleton-Finds}
use transactional_data_struc.LinkedList.Locals.{removed-Bypassed}
use transactional_data_struc.LinkedList.Steps.{bypassing, removed, after_remove, remove_at-run}

module _ (X : IndexOps) (laws : IndexLaws X) (list : LinkedList) where
  -- After a `remove`: the binding is gone, its node has been retired, and nothing else has changed.
  pub record Removed (w v : Memory X.State) (es : Cells) (key : ℕ) : Type 0 where
    pub holds : Holds X laws list v (erase key es)
    pub gvc : v.shared.gvc ≡ w.shared.gvc
    pub fresh : v.shared.fresh ≡ w.shared.fresh
    pub local : v.local ≡ w.local
    pub retired : v.shared.retired ≡ w.shared.retired ++ address key es

  abbrev W : Type 0
  W = Memory X.State

  below-erase :
      (w : W) (es : Cells) (key : ℕ)
      → Holds X laws list w es
      → (p : Ptr) → has p (list.head ∷ addresses (erase key es)) ≡ true
      → p < w.shared.fresh
  below-erase w es key holds p j = elim (Bool-cases (has p (list.head ∷ addresses es))) [
    | inl i ↦ holds.below p i
    | inr o ↦ absurd (ground (arith, has-erase key p es (ground arith)))
  ]

  remove_hit :
      (fuel key : ℕ) (w : W) (es : Cells) (s t : ℕ) (i : X.State)
      → Holds X laws list w es
      → find_node_singleton X list fuel key w [] ≡ ok (true, s, t) (with_index X laws list w i) []
      → Finds X laws list w es key i true s t
      → (v : W) × (remove_singleton X list (suc fuel) key w [] ≡ ok (lookup key es) v [])
        × Removed w v es key
  unfolding remove_singleton
  remove_hit fuel key w es s t i holds run found =
      let w1 = with_index X laws list w i in
      let retry = remove_singleton X list fuel key in
      let g = w.shared.gvc in
      let (n, at_s, quiet_s, next) = At-before holds.sorted.from found.place in
      let (m, at_t, quiet_t, key_t, val_t, not_null) = At-found holds.sorted.from found.place in
      let ne : s ≢ t = At-ne found.place holds.sorted.distinct in
      let h' =
        update (update w.shared.heap s (some (bypassing g m.next n))) t (some (removed g m)) in
      let sorted' : IsSorted IsQuiet h' list.head (erase key es) =
        IsSorted-erase holds.sorted found.place
          (removed-Bypassed w.shared.heap g s t at_s at_t quiet_s ne) in
      let apart : t ≢ list.head =
        has-ne t list.head (addresses es) (At-mem_next found.place) holds.sorted.distinct.0 in
      let kept : val_at (h' list.head) ≡ val_at (w.shared.heap list.head) =
        ap val_at (
          update_ne (update w.shared.heap s (some (bypassing g m.next n))) t (some (removed g m))
            list.head (λ e. apart (sym e)))
        ∙ val_at-update w.shared.heap s list.head _ at_s refl in
      let (i', told, valid) =
        laws.removes t key w.shared.heap h' list.head es i (removed g m) holds.sorted sorted' kept
          (At-mem_next found.place) (update_self _ t _) refl found.indexed in
      let told' =
        subst (λ x. X.remove t h' x ≡ some i') (sym (update_self w.shared.index list.self i))
          told in
      (
        after_remove X list w1 s t n m i',
        rw (run, remove_at-run X list w1 s t retry at_s next at_t quiet_s quiet_t ne told', val_t),
        record {
          holds = record {
            sorted = sorted';
            indexed =
                subst (laws.Valid h' list.head (erase key es))
                  (sym (update_self (update w.shared.index list.self i) list.self i')) valid;
            below = below-erase w es key holds;
          };
          gvc = refl;
          fresh = refl;
          local = refl;
          retired = ap (λ x. w.shared.retired ++ x) (sym (At-address found.place));
        },
      )

  remove_miss :
      (fuel key : ℕ) (w : W) (es : Cells) (s t : ℕ) (i : X.State)
      → Holds X laws list w es
      → find_node_singleton X list fuel key w [] ≡ ok (false, s, t) (with_index X laws list w i) []
      → Finds X laws list w es key i false s t
      → (v : W) × (remove_singleton X list (suc fuel) key w [] ≡ ok (lookup key es) v [])
        × Removed w v es key
  unfolding remove_singleton
  remove_miss fuel key w es s t i holds run found =
      let absent = At-absent 0 found.place holds.sorted.ascending in
      (
        with_index X laws list w i,
        rw (run, absent),
        record {
          holds =
              subst (Holds X laws list (with_index X laws list w i))
                (sym (erase-absent key es absent))
                (record {
                  sorted = holds.sorted;
                  indexed =
                      subst (laws.Valid w.shared.heap list.head es)
                        (sym (update_self _ list.self i)) found.indexed;
                  below = holds.below;
                });
          gvc = refl;
          fresh = refl;
          local = refl;
          retired =
              sym (append-nil _)
              ∙ ap (λ x. w.shared.retired ++ x) (sym (address-absent key es absent));
        },
      )

  -- On a memory that holds a sorted list, with an index that satisfies its laws and enough fuel,
  -- removeSingleton answers the value that was under the key, the memory then holds the list
  -- without the key, and the node that had it has been retired. No other thread acts meanwhile.
  pub remove_singleton-erase :
      (fuel key : ℕ) (w : W) (es : Cells)
      → Holds X laws list w es
      → length es + 3 < fuel
      → (v : W) × (remove_singleton X list fuel key w [] ≡ ok (lookup key es) v [])
        × Removed w v es key
  remove_singleton-erase zero key w es holds lt = absurd (omega arith)
  remove_singleton-erase (suc fuel) key w es holds lt =
      let (b, s, t, i, run, found) =
        find_node_singleton-Finds X laws list fuel key w es holds (omega arith) in
      choose b s t i run found
    where
      choose :
          (b : Bool) (s t : ℕ) (i : X.State)
          → find_node_singleton X list fuel key w [] ≡ ok (b, s, t) (with_index X laws list w i) []
          → Finds X laws list w es key i b s t
          → (v : W) × (remove_singleton X list (suc fuel) key w [] ≡ ok (lookup key es) v [])
            × Removed w v es key
      choose true s t i run found = remove_hit fuel key w es s t i holds run found
      choose false s t i run found = remove_miss fuel key w es s t i holds run found
