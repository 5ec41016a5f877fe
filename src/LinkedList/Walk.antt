-- ===== src/LinkedList/Walk.antt =====
-- datatypes/LinkedList.h: the loops that go through a whole list outside any transaction,
-- `deinit_list`, `get_sum_key` and `get_size`. Sums and counts are of type `size_t`.
use transactional_data_struc.Base.{ℕ, zero, suc, ◌+◌, ◌-◌, ◌%◌, ◌^◌, if◌then◌else◌}
use transactional_data_struc.Effect.{pure, stuck, ◌>>=◌, ◌>>◌}
use transactional_data_struc.Memory.{Ptr, Op, is_null, load, retire_node}
use transactional_data_struc.LinkedList.{LinkedList, load_next}

module _ {I : Type 0} where
  unfoldable pub retire_from : ℕ → Ptr → Ptr → Op I (Unit {0})
  retire_from zero prev cur = stuck
  retire_from (suc fuel) prev cur =
      if is_null cur
      then pure tt
      else do retire_node prev; next ← load_next cur; retire_from fuel cur next

  unfoldable pub deinit_list : ℕ → LinkedList → Op I (Unit {0})
  unfolding retire_from
  deinit_list fuel list = do cur ← load_next list.head; retire_from fuel list.head cur

  unfoldable pub sum_from : ℕ → Ptr → ℕ → Op I ℕ
  sum_from zero cur res = stuck
  sum_from (suc fuel) cur res =
      if is_null cur
      then pure res
      else do n ← load cur; sum_from fuel n.next ((res + n.key) % 2 ^ 64)

  unfoldable pub get_sum_key : ℕ → LinkedList → Op I ℕ
  unfolding sum_from
  get_sum_key fuel list = sum_from fuel list.head 0

  unfoldable pub count_from : ℕ → Ptr → ℕ → Op I ℕ
  count_from zero cur res = stuck
  count_from (suc fuel) cur res =
      if is_null cur
      then pure res
      else do next ← load_next cur; count_from fuel next ((res + 1) % 2 ^ 64)

  -- `res - 1` on 64 bits: the sentinel is not counted.
  unfoldable pub get_size : ℕ → LinkedList → Op I ℕ
  unfolding count_from
  get_size fuel list = do res ← count_from fuel list.head 0; pure ((res + 2 ^ 64 - 1) % 2 ^ 64)
