-- ===== src/LinkedList/RefineGet.antt =====
-- datatypes/LinkedList.h: `getSingleton` is the lookup in a sorted map, when no other thread acts
-- meanwhile.
use transactional_data_struc.Base.{
  ℕ, ◌+◌, ◌<◌, Bool, true, false, [], ◌≡◌, sym, subst, length, update_self,
}
use transactional_data_struc.Effect.{ok}
use transactional_data_struc.Memory.{Ptr}
use transactional_data_struc.Memory.Solo.{Memory}
use transactional_data_struc.Index.{IndexOps}
use transactional_data_struc.Index.Laws.{IndexLaws}
use transactional_data_struc.Chain.Spec.{Cells, lookup}
use transactional_data_struc.Chain.Shape.{At}
use transactional_data_struc.Chain.Place.{At-found, At-absent}
use transactional_data_struc.LinkedList.{LinkedList}
use transactional_data_struc.LinkedList.Singleton.{get_singleton}
use transactional_data_struc.LinkedList.Find.{find_node_singleton}
use transactional_data_struc.LinkedList.Search.{with_index, Holds, find_node_singleton-Finds}

module _ (X : IndexOps) (laws : IndexLaws X) (list : LinkedList) where
  -- On a memory that holds a sorted list, with an index that satisfies its laws and enough fuel,
  -- getSingleton answers the value under the key and changes no more than the index. No other
  -- thread acts meanwhile.
  pub get_singleton-lookup :
      (fuel key : ℕ) (w : Memory X.State) (es : Cells)
      → Holds X laws list w es
      → length es + 2 < fuel
      → (i : X.State) × (get_singleton X list fuel key w []
          ≡ ok (lookup key es) (with_index X laws list w i) [])
        × Holds X laws list (with_index X laws list w i) es
  unfolding get_singleton
  get_singleton-lookup fuel key w es holds lt =
      let (b, s, t, i, run, found) = find_node_singleton-Finds X laws list fuel key w es holds lt in
      (
        i,
        finish b s t i run found.place,
        record {
          sorted = holds.sorted;
          indexed =
              subst (laws.Valid w.shared.heap list.head es) (sym (update_self _ list.self i))
                found.indexed;
          below = holds.below;
        },
      )
    where
      finish :
          (b : Bool) (s t : Ptr) (i : X.State)
          → find_node_singleton X list fuel key w [] ≡ ok (b, s, t) (with_index X laws list w i) []
          → At key list.head es b s t
          → get_singleton X list fuel key w [] ≡ ok (lookup key es) (with_index X laws list w i) []
      finish true s t i run a =
          let (m, at, _, _, val, _) = At-found holds.sorted.from a in rw (run, at, val)
      finish false s t i run a = rw (run, At-absent 0 a holds.sorted.ascending)
