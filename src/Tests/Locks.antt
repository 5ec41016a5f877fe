-- ===== src/Tests/Locks.antt =====
-- nodes/LNode.h: two threads, 1 and 2, that want the lock of one node.
use transactional_data_struc.Base.{ℕ, ◌≡◌, ◌≢◌, ◌≤◌, refl, true, false, List, [], ◌∷◌, update}
use transactional_data_struc.Node.Word
use transactional_data_struc.Memory.Exclusion.{
  Choice, lock, release, set, deleted_setter, inside, failed, start, turns, holds, keeps, access,
  write,
}
use transactional_data_struc.Memory.Exclusion.Guard.{turns-exclusive, turns-no_failure}
use transactional_data_struc.Memory.Exclusion.Progress.{tries, turns-progress}

-- Both load the word, the first one takes the lock, the second one fails, and the first one writes.
abbrev races : List (ℕ × Choice)
races =
    (1, lock)
    ∷ (2, lock)
    ∷ (1, lock)
    ∷ (2, lock)
    ∷ (1, set (deleted_setter true))
    ∷ (1, release)
    ∷ (2, lock)
    ∷ []

abbrev one : ℕ
one = 1

first_holds : holds ((turns races (start 8)).places 1) ≡ true
unfolding turns access update write Word.is_locked Word.locked Word.put_bit Word.set_deleted
first_holds = refl

races_keep : keeps races (start 8) ≡ true
unfolding keeps access update write Word.is_locked Word.locked Word.unlocked Word.put_bit
    Word.set_deleted
races_keep = refl

turns-exclusive_example : (one ≡ one) × (Word.is_locked (turns races (start 8)).word ≡ true)
turns-exclusive_example = turns-exclusive races 8 one one races_keep first_holds first_holds

turns-no_failure_example : (turns races (start 8)).places 1 ≢ failed
turns-no_failure_example = turns-no_failure races 8 1 races_keep

-- The first one gives the lock back.
abbrev released : List (ℕ × Choice)
released = (1, lock) ∷ (2, lock) ∷ (1, lock) ∷ (1, release) ∷ (1, release) ∷ []

released_keep : keeps released (start 8) ≡ true
unfolding keeps access update write Word.is_locked Word.locked Word.unlocked Word.put_bit
    Word.set_deleted
released_keep = refl

lock_free : Word.is_locked (turns released (start 8)).word ≡ false
unfolding turns access update Word.is_locked Word.locked Word.unlocked
lock_free = refl

turns-progress_example :
    (n : ℕ) × (n ≤ 3) × ((turns (tries 2 n) (turns released (start 8))).places 2 ≡ inside)
turns-progress_example = turns-progress released 8 2 released_keep lock_free
