-- ===== src/Index/SkipList/Height.antt =====
-- nodes/Index.h, nodes/utils.cpp: the loop of `createNewIndexNode` that draws a level ends.
use transactional_data_struc.Base.{
  ℕ, zero, suc, ◌+◌, ◌-◌, ◌*◌, ◌/◌, ◌%◌, ◌^◌, ◌≤◌, ◌<◌, ◌≡◌, refl, arith, subst,
}
use native.Mathlib.Nat.{pow-suc}
use transactional_data_struc.Index.Random.{next, get_random_in_range}
use transactional_data_struc.Index.SkipList.Levels.{count_ones}

half-small : (n m : ℕ) → n < m * 2 → n / 2 < m
half-small n m lt = omega arith

count_ones-zero : (fuel rnd : ℕ) → rnd < 2 → count_ones fuel rnd ≡ 0
unfolding count_ones
count_ones-zero zero rnd lt = refl
count_ones-zero (suc fuel) rnd lt = ground arith

-- On a number of at most `bits` bits further rounds count nothing more.
count_ones-small :
    (fuel bits rnd : ℕ) → bits ≤ fuel → rnd < 2 ^ bits → count_ones fuel rnd ≡ count_ones bits rnd
unfolding count_ones
count_ones-small fuel zero rnd le lt = count_ones-zero fuel rnd (omega arith)
count_ones-small zero (suc bits) rnd le lt = absurd (omega arith)
count_ones-small (suc fuel) (suc bits) rnd le lt =
    let fewer : bits ≤ fuel = omega arith in
    let small : rnd / 2 < 2 ^ bits =
      half-small rnd (2 ^ bits) (subst (λ k. rnd < k) (pow-suc 2 bits) lt) in
    rw (count_ones-small fuel bits (rnd / 2) fewer small) refl

count_ones-most : (fuel rnd : ℕ) → count_ones fuel rnd ≤ fuel
unfolding count_ones
count_ones-most zero rnd = omega arith
count_ones-most (suc fuel) rnd = ground (arith, count_ones-most fuel (rnd / 2))

-- The loop of createNewIndexNode that draws a level ends: on a number that get_random_in_range
-- gives it for any seed, as many rounds as one likes above 30 give the same level as 30 rounds,
-- and the level is at most 30.
pub count_ones-drawn :
    (seed fuel : ℕ)
    → 30 ≤ fuel
    → (count_ones fuel ((get_random_in_range 2 (2 ^ 30 - 1) seed).0)
        ≡ count_ones 30 ((get_random_in_range 2 (2 ^ 30 - 1) seed).0))
      × (count_ones 30 ((get_random_in_range 2 (2 ^ 30 - 1) seed).0) ≤ 30)
unfolding get_random_in_range
count_ones-drawn seed fuel enough =
    let small : (n : ℕ) → n % (2 ^ 30 - 1 - 2) + 2 < 2 ^ 30 = λ n. omega arith in
    (count_ones-small fuel 30 _ enough (small (next seed)), count_ones-most 30 _)
