-- ===== src/Index/SkipList/Passage.antt =====
-- nodes/Index.h: the loop of `walkLevel` over a level with deleted nodes, when no other thread acts
-- meanwhile.
use transactional_data_struc.Base.{ℕ, some, [], ◌≡◌}
use transactional_data_struc.Effect.{ok}
use transactional_data_struc.Memory.{Ptr}
use transactional_data_struc.Index.SkipList.{IndexNode}
use transactional_data_struc.Index.SkipList.Walk.{walk_from}
use transactional_data_struc.Index.SkipList.Row.{W, Entries, Row, place}

-- After a walk: the list's nodes are as before, and what was found behind the predecessor is to its
-- right.
pub record Walked (w v : W) (found : Ptr × Ptr) : Type 0 where
  pub list : v.shared.list ≡ w.shared.list
  pub right : (i : IndexNode) × (v.shared.index.nodes found.0 ≡ some i) × (i.right ≡ found.1)

abbrev Walks : ℕ → ℕ → W → Ptr → Ptr → Entries → Type 0
Walks fuel key w q r row =
    (v : W) × (walk_from fuel key q r w [] ≡ ok (some (place key q row)) v [])
    × Walked w v (place key q row)
