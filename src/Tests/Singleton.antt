-- ===== src/Tests/Singleton.antt =====
-- datatypes/LinkedList.h: singleton operations at the list of `Setup`.
use transactional_data_struc.Base.{◌≡◌, [], arith}
use transactional_data_struc.Effect.{ok}
use transactional_data_struc.Memory.Solo.{Memory}
use transactional_data_struc.Index.Dummy.{DummyIndex, dummy}
use transactional_data_struc.Index.Laws.{dummy_laws}
use transactional_data_struc.Chain.Spec.{lookup}
use transactional_data_struc.LinkedList.Singleton.{put_singleton, remove_singleton, get_singleton}
use transactional_data_struc.LinkedList.Search.{Holds, with_index}
use transactional_data_struc.LinkedList.Refine.{Stored, put_singleton-insert}
use transactional_data_struc.LinkedList.RefineGet.{get_singleton-lookup}
use transactional_data_struc.LinkedList.RefineRemove.{Removed, remove_singleton-erase}
use transactional_data_struc.Tests.Setup.{list, memory, cells, memory-Holds}

get_singleton-lookup_example :
    (i : DummyIndex) × (get_singleton dummy list 4 5 memory []
      ≡ ok (lookup 5 cells) (with_index dummy dummy_laws list memory i) [])
    × Holds dummy dummy_laws list (with_index dummy dummy_laws list memory i) cells
get_singleton-lookup_example =
    get_singleton-lookup dummy dummy_laws list 4 5 memory cells memory-Holds (omega arith)

put_singleton-insert_example :
    (v : Memory DummyIndex) × (put_singleton dummy list 5 7 70 memory [] ≡ ok (lookup 7 cells) v [])
    × Stored dummy dummy_laws list memory v cells 7 70
put_singleton-insert_example =
    put_singleton-insert dummy dummy_laws list 5 7 70 memory cells memory-Holds (omega arith)

remove_singleton-erase_example :
    (v : Memory DummyIndex) × (remove_singleton dummy list 5 5 memory [] ≡ ok (lookup 5 cells) v [])
    × Removed dummy dummy_laws list memory v cells 5
remove_singleton-erase_example =
    remove_singleton-erase dummy dummy_laws list 5 5 memory cells memory-Holds (omega arith)
