-- ===== src/Tests/Queue.antt =====
-- datatypes/Queue.h: singleton operations on a queue of two values, and on an empty one.
use transactional_data_struc.Base.{◌≡◌, refl, true, false, none, some, [], ◌∷◌, ◌++◌, update, arith}
use transactional_data_struc.Effect.{ok, throw, empty_queue}
use transactional_data_struc.Queue.{Thread}
use transactional_data_struc.Queue.Word.{is_held}
use transactional_data_struc.Queue.Singleton.{enqueue_singleton, dequeue_singleton}
use transactional_data_struc.Queue.Chain.{Items, Holds}
use transactional_data_struc.Queue.Fifo.{W, Changed, enqueue_singleton-snoc}
use transactional_data_struc.Queue.{LocalQueue}
use transactional_data_struc.Queue.Local.{empty, is_empty, dequeue}
use transactional_data_struc.Queue.RoundTrip.{enqueue_all, dequeue_all, dequeue_all-enqueue_all}
use transactional_data_struc.Queue.Dequeue.{dequeue_singleton-empty, dequeue_singleton-cons}

abbrev thread : Thread
thread = record { tx = false; read_version = 0; queue_map = [] }

abbrev two : W
two = record {
  shared = record {
    self = 77;
    nodes =
        update (update (λ _. none) 1 (some (record { val = 10; prev = 0; next = 2 }))) 2
          (some (record { val = 20; prev = 1; next = 0 }));
    fresh = 3;
    head = 1;
    tail = 2;
    size = 2;
    word = 0;
    gvc = 6;
  };
  local = thread;
}

abbrev items : Items
items = (1, 10) ∷ (2, 20) ∷ []

two-Holds : Holds two.shared items
unfolding update is_held
two-Holds = record {
  linked = (refl, refl, 2, refl, (refl, refl, 0, refl, refl));
  tail = refl;
  distinct = (refl, (refl, tt));
  below = λ p i. ground arith;
  room = omega arith;
  size = refl;
  free = refl;
}

abbrev no_items : W
no_items = record {
  shared = record {
    self = 77;
    nodes = λ _. none;
    fresh = 1;
    head = 0;
    tail = 0;
    size = 0;
    word = 0;
    gvc = 6;
  };
  local = thread;
}

none-Holds : Holds no_items.shared []
unfolding is_held
none-Holds = record {
  linked = refl;
  tail = refl;
  distinct = tt;
  below = λ p i. ground arith;
  room = omega arith;
  size = refl;
  free = refl;
}

enqueue_singleton-snoc_example :
    (w' : W) × (enqueue_singleton 1 30 two [] ≡ ok tt w' [])
    × Changed two w' (items ++ ((3, 30) ∷ []))
enqueue_singleton-snoc_example = enqueue_singleton-snoc 0 30 two items two-Holds

dequeue_singleton-empty_example : dequeue_singleton 1 no_items [] ≡ throw empty_queue no_items []
dequeue_singleton-empty_example = dequeue_singleton-empty 0 no_items none-Holds

dequeue_singleton-cons_example :
    (w' : W) × (dequeue_singleton 1 two [] ≡ ok none w' []) × Changed two w' ((2, 20) ∷ [])
dequeue_singleton-cons_example = dequeue_singleton-cons 0 1 10 two ((2, 20) ∷ []) two-Holds

-- A transaction with read version 6, over the queue of two values as of version 0.
abbrev in_tx : W
in_tx = record two { local = record { tx = true; read_version = 6; queue_map = [] } }

dequeue_all-enqueue_all_example :
    (l : LocalQueue) × (v : W) × (l' : LocalQueue) × (v' : W) × (enqueue_all
        (10 ∷ 20 ∷ [])
        empty
        no_items
        []
      ≡ ok l v [])
    × (dequeue_all 2 l v [] ≡ ok (10 ∷ 20 ∷ [], l') v' [])
    × (is_empty l' ≡ true)
    × (dequeue l' v' [] ≡ throw empty_queue v' [])
dequeue_all-enqueue_all_example = dequeue_all-enqueue_all (10 ∷ 20 ∷ []) no_items (omega arith)
