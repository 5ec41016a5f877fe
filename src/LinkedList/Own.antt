-- ===== src/LinkedList/Own.antt =====
-- datatypes/LinkedList.h: a transaction reads what it has written, when no other thread acts
-- meanwhile.
use transactional_data_struc.Base.{
  ℕ, ◌≡◌, refl, ◌∙◌, Option, some, [], find, find-assign, Option-cases, inl, inr, ==_refl, Bool,
  false,
}
use transactional_data_struc.Effect.{ok}
use transactional_data_struc.Memory.{Ptr, Node}
use transactional_data_struc.Memory.Storage.{
  WriteElement, Local, put_into_write_set, read_set_emplace,
}
use transactional_data_struc.Memory.Solo.{Memory}
use transactional_data_struc.LinkedList.Tx.{put_found, current_val}

find-written :
    (p next : Ptr) (val : Option ℕ) (deleted : Bool) (l : Local)
    → find p (read_set_emplace p (put_into_write_set p next val deleted l)).write_set
      ≡ some (record { next = next; val = val; deleted = deleted })
unfolding read_set_emplace put_into_write_set
find-written p next val deleted l =
    find-assign p p (record { next = next; val = val; deleted = deleted }) l.write_set
    ∙ rw (==_refl p)

module _ {I : Type 0} where
  -- The thread's memory after `put` on a node: the write set has the new value for it.
  abbrev wrote : Memory I → Ptr → Ptr → Option ℕ → Memory I
  wrote w p next val = record w {
    local = read_set_emplace p (put_into_write_set p next val false w.local);
  }

  abbrev rewrote : Memory I → Ptr → WriteElement → Option ℕ → Memory I
  rewrote w p e val = record w {
    local = read_set_emplace p (put_into_write_set p e.next val e.deleted w.local);
  }

  -- put in a transaction, on a node that has the key, answers the value of the node itself, even
  -- where the transaction has already written another, and writes nothing to shared memory; the
  -- value that get and remove then take for the node is the new one. No other thread acts
  -- meanwhile.
  pub put_found-current_val :
      (val : ℕ) (p : Ptr) (w : Memory I) {n : Node}
      → w.shared.heap p ≡ some n
      → (v : Memory I) × (put_found val p w [] ≡ ok n.val v [])
        × (current_val p v [] ≡ ok (some val) v [])
        × (v.shared ≡ w.shared)
  unfolding put_found current_val
  put_found-current_val val p w {n} at = elim (Option-cases (find p w.local.write_set)) [
    | inl new ↦ (
      wrote w p n.next (some val),
      rw (new, at, at),
      rw (find-written p n.next (some val) false w.local),
      refl,
    )
    | inr (e, old) ↦ (
      rewrote w p e (some val),
      rw (old, at),
      rw (find-written p e.next (some val) e.deleted w.local),
      refl,
    )
  ]
