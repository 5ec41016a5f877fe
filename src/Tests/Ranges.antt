-- ===== src/Tests/Ranges.antt =====
-- main.cpp: five tasks for two workers.
use transactional_data_struc.Base.{ℕ, List, ◌≡◌, refl, [], ◌∷◌, arith}
use transactional_data_struc.Worker.Ranges.{given, given-all}

abbrev numbers : List ℕ
numbers = 10 ∷ 20 ∷ 30 ∷ 40 ∷ 50 ∷ []

given-all_example : given 5 2 2 numbers ≡ numbers
given-all_example = given-all 5 2 (omega arith) (omega arith) (omega arith) numbers refl
