-- ===== src/Index/SkipList/Levels.antt =====
-- nodes/Index.h: the levels of a skip list come and go one at a time.
use transactional_data_struc.Base.{
  ℕ, zero, suc, ◌+◌, ◌-◌, ◌/◌, ◌%◌, ◌^◌, ◌==◌, ltb, Bool, true, false, not, ◌&&◌, Option, none,
  some, List, [], ◌∷◌, if◌then◌else◌, update,
}
use transactional_data_struc.Effect.{pure, atomic, ◌>>=◌}
use transactional_data_struc.Memory.{Ptr, null, is_null}
use transactional_data_struc.Index.Random.{get_random_in_range}
use transactional_data_struc.Index.SkipList.{View, IndexOp, load, load_right, make, set_nodes}

abbrev set_top : View → Ptr → View
set_top v p = record v { index = record v.index { top = p } }

-- `levelUp`: the new top is over the old one, and has none over itself.
unfoldable pub level_up : Ptr → Ptr → View → Option View
level_up cmp val v = elim (v.index.nodes val) [
  | none ↦ none
  | some new ↦
      if (new.down == cmp) && is_null new.up
      then elim (v.index.nodes cmp) [
        | none ↦ none
        | some old ↦
            some (
              set_top (set_nodes v (update v.index.nodes cmp (some (record old { up = val })))) val)
      ]
      else none
]

-- `levelDown`
unfoldable pub level_down : Ptr → Ptr → View → Option View
level_down cmp val v = elim (v.index.nodes val) [
  | none ↦ none
  | some low ↦
      some (set_top (set_nodes v (update v.index.nodes val (some (record low { up = null })))) val)
]

abbrev answer : Option View → Option (Bool × View)
answer none = none
answer (some v) = some (true, v)

-- `casHead`
unfoldable pub cas_head : Ptr → Ptr → Bool → IndexOp Bool
unfolding level_up level_down
cas_head cmp val up = atomic λ v.
    if v.index.top == cmp
    then answer (if up then level_up cmp val v else level_down cmp val v)
    else some (false, v)

abbrev is_right_empty : Ptr → IndexOp Bool
is_right_empty p = do q ← load_right p; pure (is_null q)

-- `tryReduceLevel`
unfoldable pub try_reduce_level : IndexOp (Unit {0})
unfolding cas_head
try_reduce_level = do
  top ← atomic λ v. some (v.index.top, v)
  h ← load top
  if ltb h.level 3 then pure tt else do
    d ← load h.down
    if is_null h.down then pure tt else if is_null d.down then pure tt else do
      empty_e ← is_right_empty d.down
      if not empty_e then pure tt else do
        empty_d ← is_right_empty h.down
        if not empty_d then pure tt else do
          empty_h ← is_right_empty top
          if not empty_h then pure tt else do
            reduced ← cas_head top h.down false
            if not reduced then pure tt else do
              still_empty ← is_right_empty top
              if still_empty then pure tt else do _ ← cas_head h.down top true; pure tt

-- The loop that counts the ones of `rnd` over its lowest bit. `rnd` has at most 30 bits, so 30
-- rounds are enough.
unfoldable pub count_ones : ℕ → ℕ → ℕ
count_ones zero rnd = 0
count_ones (suc fuel) rnd =
    let more = count_ones fuel (rnd / 2) in if (rnd / 2) % 2 == 1 then suc more else 0

abbrev min : ℕ → ℕ → ℕ
min a b = if ltb b a then b else a

-- Index nodes of one node of the list, each over the one before it.
make_tower : ℕ → Ptr → Ptr → IndexOp (List Ptr)
make_tower zero node down = pure []
make_tower (suc n) node down = do
  p ← make (record { node = node; down = down; right = null; level = 0; up = null })
  ps ← make_tower n node p
  pure (p ∷ ps)

-- `createNewIndexNode`: the level, and the index nodes from level 0 up to it.
unfoldable pub create_new_index_node : Ptr → ℕ → IndexOp (ℕ × List Ptr)
unfolding count_ones make_tower
create_new_index_node node max_level = do
  rnd ← atomic λ v.
      let (rnd, seed) = get_random_in_range 2 (2 ^ 30 - 1) v.index.seed in
      some (rnd, record v { index = record v.index { seed = seed } })
  let level = min (count_ones 30 rnd) (max_level + 1)
  idxs ← make_tower (level + 1) node null
  pure (level, idxs)
