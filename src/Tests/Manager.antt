-- ===== src/Tests/Manager.antt =====
-- nodes/record_mgr.h: a new node from a record manager that takes the next address, while another
-- thread takes one too and moves the clock.
use transactional_data_struc.Base.{◌+◌, ◌≡◌, refl, some, [], ◌∷◌, update}
use transactional_data_struc.Effect.{Schedule, ok, pure}
use transactional_data_struc.Memory.{Ptr, Shared}
use transactional_data_struc.Memory
use transactional_data_struc.Memory.Solo.{Memory}
use transactional_data_struc.Memory.Manager.{
  RecordManager, RecordMgr, default_node, new_default, get_new_node,
}
use transactional_data_struc.Memory.Manager.Same.{filled, get_new_node-same}
use transactional_data_struc.Index.Dummy.{DummyIndex}
use transactional_data_struc.Tests.Setup.{memory}

abbrev manager : RecordManager DummyIndex
manager = record {
  init_thread = λ tid. pure tt;
  deinit_thread = λ tid. pure tt;
  allocate = λ tid. new_default;
  retire = λ tid p. Memory.retire_node p;
}

abbrev mgr : RecordMgr DummyIndex
mgr = record { manager = manager; tid = 1 }

abbrev takes_node : Shared DummyIndex → Shared DummyIndex
takes_node h = record h { heap = update h.heap h.fresh (some default_node); fresh = h.fresh + 1 }

abbrev moves_clock : Shared DummyIndex → Shared DummyIndex
moves_clock h = record h { gvc = h.gvc + 1 }

get_new_node-same_example :
    (get_new_node mgr 7 70 memory [] ≡ Memory.get_new_node 7 70 memory [])
    × (v : Memory DummyIndex) × (ds : Schedule (Shared DummyIndex)) × (get_new_node mgr 7 70 memory
          (takes_node ∷ moves_clock ∷ [])
        ≡ ok 4 v ds)
    × (v.shared.heap 4 ≡ some (filled 7 70))
    × (v.local ≡ memory.local)
get_new_node-same_example =
    get_new_node-same mgr refl 7 70 memory takes_node (moves_clock ∷ []) (λ h q i. refl, tt)
