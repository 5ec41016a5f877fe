-- ===== src/Queue/Word.antt =====
-- datatypes/Queue.h: the word `m_version_mask` of a queue. It has the lock in bit 60 and the
-- singleton flag in bit 62; all other bits, 61 and 63 too, are the version.
use transactional_data_struc.Base.{
  ℕ, ◌+◌, ◌-◌, ◌*◌, ◌/◌, ◌%◌, Bool, true, false, some, ◌==◌, if◌then◌else◌,
}
use transactional_data_struc.Effect.{pure, assert, atomic, ◌>>=◌, ◌>>◌}
use transactional_data_struc.Node.Word.{lock_mask, singleton_mask, is_set, set_bit, clear_bit}
use transactional_data_struc.Queue.{QueueOp, read, write}

-- `l & VERSIONNEG_MASK` and `l & ~VERSIONNEG_MASK`
abbrev pub flags : ℕ → ℕ
flags l = (l / lock_mask % 2) * lock_mask + (l / singleton_mask % 2) * singleton_mask

abbrev pub version_bits : ℕ → ℕ
version_bits l = l - flags l

unfoldable pub version_of : ℕ → ℕ
version_of l = version_bits l

unfoldable pub is_held : ℕ → Bool
is_held l = is_set lock_mask l

unfoldable pub is_single : ℕ → Bool
is_single l = is_set singleton_mask l

-- The stored words; the flags and the version have no bit in common, so `|` adds.
unfoldable pub with_version : ℕ → ℕ → ℕ
with_version version l = flags l + version_bits version

unfoldable pub with_singleton : Bool → ℕ → ℕ
with_singleton true l = set_bit singleton_mask l
with_singleton false l = clear_bit singleton_mask l

unfoldable pub held : ℕ → ℕ
held l = set_bit lock_mask l

unfoldable pub released : ℕ → ℕ
released l = clear_bit lock_mask l

unfoldable pub get_version : QueueOp ℕ
unfolding version_of
get_version = do l ← read (λ q. q.word); pure (version_of l)

unfoldable pub is_singleton : QueueOp Bool
unfolding is_single
is_singleton = do l ← read (λ q. q.word); pure (is_single l)

unfoldable pub is_locked : QueueOp Bool
unfolding is_held
is_locked = do l ← read (λ q. q.word); pure (is_held l)

unfoldable pub set_version : ℕ → QueueOp (Unit {0})
unfolding with_version is_held
set_version version = do
  l ← read (λ q. q.word)
  assert (is_held l)
  write λ q. record q { word = with_version version l }

unfoldable pub set_singleton : Bool → QueueOp (Unit {0})
unfolding with_singleton is_held
set_singleton value = do
  l ← read (λ q. q.word)
  assert (is_held l)
  write λ q. record q { word = with_singleton value l }

-- `compare_exchange_strong` on `m_version_mask`.
abbrev compare_exchange : ℕ → ℕ → QueueOp Bool
compare_exchange expected desired =
    atomic
      λ q. some (if q.word == expected then (true, record q { word = desired }) else (false, q))

unfoldable pub try_lock : QueueOp Bool
unfolding held is_held
try_lock = do l ← read (λ q. q.word); if is_held l then pure false else compare_exchange l (held l)

unfoldable pub unlock : QueueOp (Unit {0})
unfolding released is_held
unlock = do
  l ← read (λ q. q.word)
  assert (is_held l)
  ret ← compare_exchange l (released l)
  assert ret
