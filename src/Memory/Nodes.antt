-- ===== src/Memory/Nodes.antt =====
-- nodes/LNode.h: the methods of `LNode`, on the node that a pointer leads to. A method that loads
-- `m_version_mask` and stores it again makes two accesses, between which other threads may act.
use transactional_data_struc.Base.{ℕ, Bool, false, if◌then◌else◌}
use transactional_data_struc.Effect.{pure, assert, ◌>>=◌, ◌>>◌}
use transactional_data_struc.Node.Word
use transactional_data_struc.Memory.{Ptr, Op, load, store, compare_exchange}

module _ {I : Type 0} where
  -- A load of `m_version_mask`, and a method that only reads it.
  abbrev pub load_word : Ptr → Op I ℕ
  load_word p = do n ← load p; pure n.word

  abbrev pub store_word : Ptr → ℕ → Op I (Unit {0})
  store_word p l = store p λ n. record n { word = l }

  abbrev pub read_word : {A : Type 0} → (ℕ → A) → Ptr → Op I A
  read_word f p = do l ← load_word p; pure (f l)

  unfoldable pub is_locked : Ptr → Op I Bool
  is_locked p = read_word Word.is_locked p

  unfoldable pub is_deleted : Ptr → Op I Bool
  is_deleted p = read_word Word.is_deleted p

  unfoldable pub is_locked_or_deleted : Ptr → Op I Bool
  is_locked_or_deleted p = read_word Word.is_locked_or_deleted p

  unfoldable pub is_singleton : Ptr → Op I Bool
  is_singleton p = read_word Word.is_singleton p

  unfoldable pub node_version : Ptr → Op I ℕ
  node_version p = read_word Word.get_version p

  unfoldable pub is_same_version_and_singleton : Ptr → ℕ → Op I Bool
  is_same_version_and_singleton p version = read_word (Word.is_same_version_and_singleton version) p

  unfoldable pub try_lock : Ptr → Op I Bool
  try_lock p = do
    l ← load_word p
    if Word.is_locked l then pure false else compare_exchange p l (Word.locked l)

  unfoldable pub unlock : Ptr → Op I (Unit {0})
  unlock p = do
    l ← load_word p
    assert (Word.is_locked l)
    ret ← compare_exchange p l (Word.unlocked l)
    assert ret

  -- A setter that asserts the lock, and one that does not.
  abbrev pub write_locked : (ℕ → ℕ) → Ptr → Op I (Unit {0})
  write_locked f p = do l ← load_word p; assert (Word.is_locked l); store_word p (f l)

  abbrev pub write_unchecked : (ℕ → ℕ) → Ptr → Op I (Unit {0})
  write_unchecked f p = do l ← load_word p; store_word p (f l)

  unfoldable pub set_deleted : Ptr → Bool → Op I (Unit {0})
  set_deleted p value = write_locked (Word.set_deleted value) p

  unfoldable pub set_singleton : Ptr → Bool → Op I (Unit {0})
  set_singleton p value = write_locked (Word.set_singleton value) p

  unfoldable pub set_singleton_no_lock_assert : Ptr → Bool → Op I (Unit {0})
  set_singleton_no_lock_assert p value = write_unchecked (Word.set_singleton value) p

  unfoldable pub set_version : Ptr → ℕ → Op I (Unit {0})
  set_version p version = write_locked (Word.set_version version) p

  unfoldable pub set_version_and_singleton : Ptr → ℕ → Bool → Op I (Unit {0})
  set_version_and_singleton p version value =
      write_locked (Word.set_version_and_singleton version value) p

  unfoldable pub set_version_and_singleton_no_lock_assert : Ptr → ℕ → Bool → Op I (Unit {0})
  set_version_and_singleton_no_lock_assert p version value =
      write_unchecked (Word.set_version_and_singleton version value) p

  unfoldable pub set_version_and_deleted_and_singleton : Ptr → ℕ → Bool → Bool → Op I (Unit {0})
  set_version_and_deleted_and_singleton p version deleted singleton =
      write_locked (Word.set_version_and_deleted_and_singleton version deleted singleton) p
