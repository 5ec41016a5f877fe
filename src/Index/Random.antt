-- ===== src/Index/Random.antt =====
-- nodes/utils.h, nodes/utils.cpp: the generator that an index draws its levels from.
use transactional_data_struc.Base.{ℕ, zero, suc, ◌+◌, ◌-◌, ◌*◌, ◌/◌, ◌%◌, ◌^◌}

abbrev pub offset : ℕ
offset = 14695981039346656037

abbrev pub prime : ℕ
prime = 1099511628211

-- `a ^ b` on the lowest `bits` bits.
unfoldable pub xor : ℕ → ℕ → ℕ → ℕ
xor zero a b = 0
xor (suc bits) a b = (a + b) % 2 + 2 * xor bits (a / 2) (b / 2)

-- `RandomFNV1A::next`: the result is the new seed too.
unfoldable pub next : ℕ → ℕ
unfolding xor
next seed = (xor 64 offset seed * prime) % 2 ^ 64

-- `get_random_in_range`, given the seed of the thread. The answer is the number and the new seed.
unfoldable pub get_random_in_range : ℕ → ℕ → ℕ → ℕ × ℕ
unfolding next
get_random_in_range min_range max_range seed =
    let n = next seed in (n % (max_range - min_range) + min_range, n)
