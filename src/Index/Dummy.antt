-- ===== src/Index/Dummy.antt =====
-- datatypes/dummyIndex.h: an index that knows the head of its list and nothing else. The list of the
-- source has the index of nodes/Index.h; this one may serve it too, but for the argument of `getPred`.
use transactional_data_struc.Base.{Option, some}
use transactional_data_struc.Memory.{Ptr, null, Heap}
use transactional_data_struc.Index.{IndexOps}

pub record DummyIndex : Type 0 where
  pub head : Ptr

-- `getPred` takes a node, and does not look at it.
abbrev pub get_pred : Ptr → DummyIndex → Ptr
get_pred node i = i.head

abbrev pub add : Ptr → Heap → DummyIndex → Option DummyIndex
add node h i = some i

abbrev pub remove : Ptr → Heap → DummyIndex → Option DummyIndex
remove node h i = some i

-- As the index of a list, which asks with a key.
abbrev pub dummy : IndexOps
dummy = record {
  State = DummyIndex;
  get_pred = λ key h i. some (get_pred null i, i);
  add = add;
  remove = remove;
}
