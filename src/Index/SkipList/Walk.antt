-- ===== src/Index/SkipList/Walk.antt =====
-- nodes/Index.h: `walkLevel` and `findInsertionPoints`. A walk that meets a deleted node takes it
-- out of the level. `fuel` bounds the rounds of each loop.
use transactional_data_struc.Base.{
  ℕ, zero, suc, ◌==◌, ltb, false, Option, none, some, List, [], ◌∷◌, if◌then◌else◌,
}
use transactional_data_struc.Effect.{
  pure, stuck, assert, raise, atomic, invalid_argument, ◌>>=◌, ◌>>◌,
}
use transactional_data_struc.Memory.{Ptr, is_null}
use transactional_data_struc.Index.SkipList.{IndexOp, load, load_list, load_right, is_dead, unlink}

-- The loop of `walkLevel`; `none` asks the caller to start again.
unfoldable pub walk_from : ℕ → ℕ → Ptr → Ptr → IndexOp (Option (Ptr × Ptr))
walk_from zero key q r = stuck
walk_from (suc fuel) key q r =
    let go : Ptr → Ptr → IndexOp (Option (Ptr × Ptr)) = walk_from fuel key in
    if is_null r then pure (some (q, r)) else do
      i ← load r
      n ← load_list i.node
      dead ← is_dead i
      if dead
          then (do
            unlinked ← unlink q r
            if unlinked then (do r' ← load_right q; go q r') else pure none)
          else if ltb n.key key
          then (do r' ← load_right r; go r r')
          else pure (some (q, r))

unfoldable pub walk_level : ℕ → Ptr → ℕ → IndexOp (Option (Ptr × Ptr))
unfolding walk_from
walk_level fuel start key =
    if is_null start
    then raise invalid_argument
    else do r ← load_right start; walk_from fuel key start r

-- Walk until a walk is finished: from `start`, and again from `again`. The answer is the start of
-- the last walk, the predecessor and what is to its right.
unfoldable pub walk_until : ℕ → ℕ → Ptr → Ptr → IndexOp (Ptr × Ptr × Ptr)
walk_until zero key again start = stuck
walk_until (suc fuel) key again start =
    let retry = walk_until fuel key again again in
    do
      found ← walk_level fuel start key
      elim found [ none ↦ retry | some (prev, next) ↦ pure (start, prev, next) ]

-- `prevs` and `nexts`, from level 0 up.
abbrev pub Points : Type 0
Points = List Ptr × List Ptr

-- The inner loop of `findInsertionPoints`, from level `level` down; `none` starts all over.
unfoldable pub descend : ℕ → ℕ → ℕ → Ptr → Ptr → List Ptr → List Ptr → IndexOp (Option Points)
unfolding walk_until
descend zero key level head curr prevs nexts = stuck
descend (suc fuel) key level head curr prevs nexts =
    let go : ℕ → Ptr → Ptr → List Ptr → List Ptr → IndexOp (Option Points) = descend fuel key in
    do
      c ← load curr
      dead ← is_dead c
      if dead then pure none else do
        (start, prev, next) ← walk_until fuel key head curr
        p ← load prev
        gone ← is_dead p
        if gone
            then go level head start prevs nexts
            else if is_null p.down
            then (do assert (level == 0); pure (some (prev ∷ prevs, next ∷ nexts)))
            else elim level [
              | zero ↦ pure none
              | suc l ↦ do h ← load head; go l h.down p.down (prev ∷ prevs) (next ∷ nexts)
            ]

unfoldable pub find_insertion_points : ℕ → ℕ → IndexOp Points
unfolding descend
find_insertion_points zero key = stuck
find_insertion_points (suc fuel) key =
    let retry = find_insertion_points fuel key in
    do
      head ← atomic λ v. some (v.index.top, v)
      h ← load head
      found ← descend fuel key h.level head head [] []
      elim found [ none ↦ retry | some points ↦ pure points ]

-- `findPredecessor`
unfoldable pub find_predecessor : ℕ → ℕ → IndexOp Ptr
unfolding find_insertion_points
find_predecessor fuel key = do
  (prevs, nexts) ← find_insertion_points fuel key
  elim prevs [ [] ↦ (do assert false; pure 0) | p ∷ ps ↦ do i ← load p; pure i.node ]
