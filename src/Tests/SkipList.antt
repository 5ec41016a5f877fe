-- ===== src/Tests/SkipList.antt =====
-- nodes/Index.h: a level with the head and three index nodes, of which the first is of a deleted node.
use transactional_data_struc.Base.{
  ◌-◌, ◌^◌, ◌≤◌, ◌≡◌, true, false, none, some, [], ◌∷◌, update, arith,
}
use transactional_data_struc.Index.Random.{get_random_in_range}
use transactional_data_struc.Index.SkipList.Levels.{count_ones}
use transactional_data_struc.Index.SkipList.Height.{count_ones-drawn}
use transactional_data_struc.Index.SkipList.{IndexNode}
use transactional_data_struc.Index.SkipList.Row.{W, Entries, Row}

abbrev view : W
view = record {
  shared = record {
    list =
        update
          (update
            (update
              (update (λ _. none) 1 (some (record { key = 0; val = some 0; next = 2; word = 0 }))) 2
              (some (record { key = 4; val = none; next = 3; word = 0 })))
            3 (some (record { key = 5; val = some 50; next = 4; word = 0 })))
          4 (some (record { key = 9; val = some 90; next = 0; word = 0 }));
    index = record {
      nodes =
          update
            (update
              (update
                (update (λ _. none) 1
                  (some (record { node = 1; down = 0; right = 2; level = 0; up = 0 })))
                2 (some (record { node = 2; down = 0; right = 3; level = 0; up = 0 })))
              3 (some (record { node = 3; down = 0; right = 4; level = 0; up = 0 })))
            4 (some (record { node = 4; down = 0; right = 0; level = 0; up = 0 }));
      fresh = 5;
      top = 1;
      bottom = 1;
      seed = 0;
    };
  };
  local = tt;
}

abbrev row : Entries
row = (2, 4, false) ∷ (3, 5, true) ∷ (4, 9, true) ∷ []

abbrev head : IndexNode
head = record { node = 1; down = 0; right = 2; level = 0; up = 0 }

-- The number that the seed 0 draws, with twice as many rounds as it needs.
count_ones-drawn_example :
    (count_ones 60 ((get_random_in_range 2 (2 ^ 30 - 1) 0).0)
      ≡ count_ones 30 ((get_random_in_range 2 (2 ^ 30 - 1) 0).0))
    × (count_ones 30 ((get_random_in_range 2 (2 ^ 30 - 1) 0).0) ≤ 30)
count_ones-drawn_example = count_ones-drawn 0 60 (omega arith)
