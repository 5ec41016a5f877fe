-- ===== src/Node/Word.antt =====
-- nodes/LNode.h: the 64-bit word `m_version_mask`, which packs a version and three flags.
-- Bits 60, 61 and 62 are the lock, deleted and singleton flags; `~VERSIONNEG_MASK` keeps the
-- bits 0 to 59 and bit 63. Each mask has one bit, so `l & MASK` is a digit of `l`, `l | MASK`
-- adds the mask where the digit is 0, and `l & ~MASK` takes it away where the digit is 1.
pub mod Fields
use transactional_data_struc.Base.{
  ℕ, ◌+◌, ◌-◌, ◌*◌, ◌/◌, ◌%◌, ◌^◌, ◌<◌, ◌≤◌, ◌≡◌, Bool, true, false, ◌&&◌, ◌||◌, Option, none, some,
  ◌==◌, if◌then◌else◌, arith,
}

abbrev pub lock_mask : ℕ
lock_mask = 0x1000_0000_0000_0000

abbrev pub delete_mask : ℕ
delete_mask = 0x2000_0000_0000_0000

abbrev pub singleton_mask : ℕ
singleton_mask = 0x4000_0000_0000_0000

-- `(l & mask) != 0`, `l | mask` and `l & ~mask` for a mask with one bit.
abbrev pub is_set : ℕ → ℕ → Bool
is_set mask l = (l / mask) % 2 == 1

abbrev pub set_bit : ℕ → ℕ → ℕ
set_bit mask l = if is_set mask l then l else l + mask

abbrev pub clear_bit : ℕ → ℕ → ℕ
clear_bit mask l = if is_set mask l then l - mask else l

-- `l & VERSIONNEG_MASK` and `l & ~VERSIONNEG_MASK`
abbrev pub flags : ℕ → ℕ
flags l = (l / lock_mask % 8) * lock_mask

abbrev pub version_bits : ℕ → ℕ
version_bits l = l - flags l

unfoldable pub is_locked : ℕ → Bool
is_locked l = is_set lock_mask l

unfoldable pub is_deleted : ℕ → Bool
is_deleted l = is_set delete_mask l

unfoldable pub is_singleton : ℕ → Bool
is_singleton l = is_set singleton_mask l

unfoldable pub is_locked_or_deleted : ℕ → Bool
is_locked_or_deleted l = is_set delete_mask l || is_set lock_mask l

unfoldable pub get_version : ℕ → ℕ
get_version l = version_bits l

unfoldable pub is_same_version_and_singleton : ℕ → ℕ → Bool
is_same_version_and_singleton version l =
    if is_set singleton_mask l then version_bits l == version else false

-- The words that `tryLock` and `unlock` try to store.
unfoldable pub locked : ℕ → ℕ
locked l = set_bit lock_mask l

unfoldable pub unlocked : ℕ → ℕ
unlocked l = clear_bit lock_mask l

unfoldable pub put_bit : ℕ → Bool → ℕ → ℕ
put_bit mask value l = if value then set_bit mask l else clear_bit mask l

unfoldable pub set_deleted : Bool → ℕ → ℕ
unfolding put_bit
set_deleted value l = put_bit delete_mask value l

unfoldable pub set_singleton : Bool → ℕ → ℕ
unfolding put_bit
set_singleton value l = put_bit singleton_mask value l

unfoldable pub set_version : ℕ → ℕ → ℕ
set_version version l = flags l + version_bits version

unfoldable pub set_version_and_singleton : ℕ → Bool → ℕ → ℕ
unfolding put_bit set_version
set_version_and_singleton version value l = put_bit singleton_mask value (set_version version l)

unfoldable pub set_version_and_deleted_and_singleton : ℕ → Bool → Bool → ℕ → ℕ
unfolding put_bit set_version
set_version_and_deleted_and_singleton version deleted singleton l =
    put_bit delete_mask deleted (put_bit singleton_mask singleton (set_version version l))
