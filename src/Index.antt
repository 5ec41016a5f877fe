-- ===== src/Index.antt =====
-- nodes/Index.h and datatypes/dummyIndex.h as a linked list sees them: an index has a state of its
-- own, and reads the nodes of the list.
pub mod Dummy
pub mod Random
pub mod SkipList
pub mod Laws
use transactional_data_struc.Base.{ℕ, Option}
use transactional_data_struc.Memory.{Ptr, Heap}

-- `getPred`, `add` and `remove`; `none` stands for a call that does not return.
pub record IndexOps : Type 1 where
  pub State : Type 0
  pub get_pred : ℕ → Heap → State → Option (Ptr × State)
  pub add : Ptr → Heap → State → Option State
  pub remove : Ptr → Heap → State → Option State
