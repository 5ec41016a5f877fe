-- ===== src/Index/SkipList/Update.antt =====
-- nodes/Index.h: `insert_in_level`, `add`, `remove` and `getPred`.
use transactional_data_struc.Base.{
  ℕ, zero, suc, ◌+◌, ◌==◌, ltb, Bool, true, false, not, ◌&&◌, Option, none, some, List, [], ◌∷◌,
  if◌then◌else◌, is_some, length,
}
use transactional_data_struc.Effect.{
  Run, ok, throw, fault, out_of_fuel, pure, stuck, raise, atomic, invalid_argument, ◌>>=◌,
}
use transactional_data_struc.Memory.{Ptr, null, is_null, is_wrapper_deleted, Heap}
use transactional_data_struc.Index.{IndexOps}
use transactional_data_struc.Index.SkipList.{
  IndexNode, SkipList, View, IndexOp, load, load_list, load_right, make, link,
}
use transactional_data_struc.Index.SkipList.Walk.{
  walk_until, find_insertion_points, find_predecessor,
}
use transactional_data_struc.Index.SkipList.Levels.{
  cas_head, try_reduce_level, create_new_index_node,
}

-- `new_node->m_node.is_deleted() || new_node->m_node->m_val`, as it is written: the node has a
-- value.
abbrev gives_up : IndexNode → IndexOp Bool
gives_up i =
    if is_wrapper_deleted i.node then pure true else do n ← load_list i.node; pure (is_some n.val)

unfoldable pub insert_in_level : ℕ → Ptr → Ptr → Ptr → Ptr → IndexOp Bool
insert_in_level zero new_node prev next head = stuck
insert_in_level (suc fuel) new_node prev next head =
    let retry : Ptr → Ptr → IndexOp Bool = λ p q. insert_in_level fuel new_node p q head in
    do
      linked ← link prev next new_node
      if linked then pure true else do
        i ← load new_node
        stops ← gives_up i
        if stops then pure false else do
          n ← load_list i.node
          (_, prev', next') ← walk_until fuel n.key head head
          retry prev' next'

-- `vector[i]`; there is nothing at the null pointer.
abbrev at : List Ptr → ℕ → Ptr
at [] i = null
at (p ∷ ps) zero = p
at (p ∷ ps) (suc i) = at ps i

-- The loop of `add` over the levels, from `head` up. The answer is whether the node is being
-- deleted, and `insertion_level`.
unfoldable pub insert_levels : ℕ → ℕ → List Ptr → List Ptr → List Ptr → Ptr → ℕ → IndexOp (Bool × ℕ)
unfolding insert_in_level
insert_levels zero level idxs prevs nexts head inserted = stuck
insert_levels (suc fuel) level idxs prevs nexts head inserted =
    let go : Ptr → ℕ → IndexOp (Bool × ℕ) = insert_levels fuel level idxs prevs nexts in
    if is_null head then pure (false, inserted) else do
      h ← load head
      if not (ltb h.level (level + 1) && ltb h.level (length prevs))
          then pure (false, inserted)
          else do
            done ← insert_in_level fuel (at idxs h.level) (at prevs h.level) (at nexts h.level) head
            if not done then pure (true, inserted) else do h' ← load head; go h'.up (inserted + 1)

-- The end of `add`: one level more, where the node is in every level there is.
unfoldable pub grow : ℕ → List Ptr → ℕ → IndexOp (Unit {0})
unfolding cas_head
grow level idxs inserted = if inserted == level + 1 then pure tt else do
  head ← atomic λ v. some (v.index.top, v)
  h ← load head
  if ltb inserted h.level then pure tt else if not (ltb h.level level) then pure tt else do
    newh ← make (record {
      node = h.node;
      down = head;
      right = at idxs (h.level + 1);
      level = h.level + 1;
      up = null;
    })
    _ ← cas_head head newh true
    pure tt

unfoldable pub add : ℕ → Ptr → IndexOp (Unit {0})
unfolding insert_levels grow
add fuel node = if is_null node then raise invalid_argument else do
  head ← atomic λ v. some (v.index.bottom, v)
  n ← load_list node
  (prevs, nexts) ← find_insertion_points fuel n.key
  (level, idxs) ← create_new_index_node node (length prevs)
  (deleted, inserted) ← insert_levels fuel level idxs prevs nexts head 0
  if deleted then pure tt else grow level idxs inserted

unfoldable pub remove : ℕ → Ptr → IndexOp (Unit {0})
remove fuel node = if is_null node then raise invalid_argument else do
  n ← load_list node
  _ ← find_predecessor fuel n.key
  top ← atomic λ v. some (v.index.top, v)
  right ← load_right top
  if is_null right then try_reduce_level else pure tt

unfoldable pub get_pred : ℕ → ℕ → IndexOp Ptr
get_pred zero key = stuck
get_pred (suc fuel) key =
    let retry = get_pred fuel key in
    do
      b ← find_predecessor fuel key
      n ← load_list b
      if not (is_wrapper_deleted b) && is_some n.val then pure b else retry

-- The skip list as the index of a linked list, one operation at a time.
abbrev answer : {A : Type 0} → Run View (Unit {0}) A → Option (A × SkipList)
answer (ok a w es) = some (a, w.shared.index)
answer (throw e w es) = none
answer fault = none
answer out_of_fuel = none

abbrev state : {A : Type 0} → Option (A × SkipList) → Option SkipList
state none = none
state (some (a, i)) = some i

abbrev run : {A : Type 0} → IndexOp A → Heap → SkipList → Option (A × SkipList)
run m h i = answer (m (record { shared = record { list = h; index = i }; local = tt }) [])

unfoldable pub skip_list : ℕ → IndexOps
unfolding add remove get_pred
skip_list fuel = record {
  State = SkipList;
  get_pred = λ key. run (get_pred fuel key);
  add = λ p h i. state (run (add fuel p) h i);
  remove = λ p h i. state (run (remove fuel p) h i);
}
