-- ===== src/Node/Word/Fields.antt =====
-- nodes/LNode.h: what each method that writes `m_version_mask` does to the four fields of the word.
use transactional_data_struc.Base.{ℕ, ◌^◌, ◌<◌, ◌≡◌, Bool, true, false, arith}
use transactional_data_struc.Node.Word.{
  is_locked, is_deleted, is_singleton, get_version, locked, unlocked, set_deleted, set_singleton,
  set_version, set_version_and_singleton, set_version_and_deleted_and_singleton,
}

-- The fields of a word.
pub record HasFields (l version : ℕ) (lock deleted singleton : Bool) : Type 0 where
  pub fits : l < 2 ^ 64
  pub version_is : get_version l ≡ version
  pub lock_is : is_locked l ≡ lock
  pub deleted_is : is_deleted l ≡ deleted
  pub singleton_is : is_singleton l ≡ singleton

pub locked-HasFields :
    (l v : ℕ) (k d s : Bool) → HasFields l v k d s → HasFields (locked l) v true d s
unfolding locked is_locked is_deleted is_singleton get_version
locked-HasFields l v k d s h = ground arith

pub unlocked-HasFields :
    (l v : ℕ) (k d s : Bool) → HasFields l v k d s → HasFields (unlocked l) v false d s
unfolding unlocked is_locked is_deleted is_singleton get_version
unlocked-HasFields l v k d s h = ground arith

-- setVersion sets the version of a word, where the version has at most 60 bits, and keeps its
-- three flags and its 64 bits.
pub set_version-HasFields :
    (l v u : ℕ) (k d s : Bool)
    → u < 2 ^ 60
    → HasFields l v k d s
    → HasFields (set_version u l) u k d s
unfolding set_version is_locked is_deleted is_singleton get_version
set_version-HasFields l v u k d s b h = ground arith

-- setSingleton sets the singleton flag of a word and keeps its version, its other flags and its
-- 64 bits.
pub set_singleton-HasFields :
    (l v : ℕ) (k d s b : Bool) → HasFields l v k d s → HasFields (set_singleton b l) v k d b
unfolding set_singleton is_locked is_deleted is_singleton get_version
set_singleton-HasFields l v k d s b h = ground arith

pub set_deleted-HasFields :
    (l v : ℕ) (k d s b : Bool) → HasFields l v k d s → HasFields (set_deleted b l) v k b s
unfolding set_deleted is_locked is_deleted is_singleton get_version
set_deleted-HasFields l v k d s b h = ground arith

-- `setVersionAndSingleton` (with or without the lock assertion) is the two setters in a row.
pub set_version_and_singleton_lem :
    (u l : ℕ) (b : Bool) → set_version_and_singleton u b l ≡ set_singleton b (set_version u l)
unfolding set_version_and_singleton set_singleton
set_version_and_singleton_lem u l b = ground arith

-- `setVersionAndDeletedAndSingleton` is three setters in a row.
pub set_all_lem :
    (u l : ℕ) (d b : Bool)
    → set_version_and_deleted_and_singleton u d b l
      ≡ set_deleted d (set_singleton b (set_version u l))
unfolding set_version_and_deleted_and_singleton set_singleton set_deleted
set_all_lem u l d b = ground arith
