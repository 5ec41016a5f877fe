-- ===== src/Lib.antt =====
-- Transactional data structures: a sorted linked list and a queue whose operations run alone
-- (singleton operations) or in a transaction with versions and locks, after TDSL.
--
-- The parts of the program, and the files that model them:
-- - Effect.antt: how the C++ code is written here. A command runs on the memory that threads share
--   and the memory of its own thread; before each access to shared memory the other threads may act.
-- - nodes/LNode.h: Node/Word.antt has the 64-bit word of version and flags, Memory/Nodes.antt the
--   methods as commands, one step for each access.
-- - nodes/LNodeWrapper.h, nodes/record_mgr.h, TX.h (the clock): Memory.antt. A wrapper is an address,
--   `get_new_node` takes a fresh one, `retire_node` lists the node as retired.
--   Memory/Manager.antt has the variant for DEBRA, on a record manager that is a parameter.
-- - LocalStorage.h, LocalTransaction.h, WriteElement.h: Memory/Storage.antt.
-- - datatypes/LinkedList.h: LinkedList/Find.antt searches, LinkedList/Singleton.antt has the
--   singleton operations, LinkedList/Tx.antt the transactional ones, LinkedList/Walk.antt the loops
--   over a whole list. They call an index through the record IndexOps of Index.antt.
-- - TX.h: Transaction.antt has `TXbegin`, `TXend` in its phases, and `handle_abort`;
--   Transaction/Stamp.antt describes what a commit leaves behind.
-- - datatypes/dummyIndex.h: Index/Dummy.antt. nodes/Index.h: Index/SkipList.antt and the files under
--   it. nodes/utils.h, nodes/utils.cpp: Index/Random.antt.
-- - datatypes/Queue.h, datatypes/LocalQueue.h, nodes/QNode.h: Queue.antt and the files under it.
-- - main.cpp: Worker.antt has a worker and the sums of the results, Worker/Ranges.antt the
--   tasks that each worker is given.
--
-- The abstract views: Chain/Spec.antt has a sorted map as the list of its cells, with `lookup`,
-- `insert` and `erase`; the files under Chain say when a heap holds such a list. Chain/Cover.antt and
-- Chain/Transfer.antt are about the list that a transaction sees: the committed one, with its write
-- set laid over it, in LinkedList/Overlay.antt and the files under it. Transaction/Publish.antt
-- makes the seen list the committed one, and Transaction/Program.antt, Transaction/Session.antt and
-- Transaction/Atomic.antt are about transactions from `TXbegin` to `TXend`; Transaction/Undo.antt
-- is about a transaction that `handle_abort` gives up. Index/Laws.antt says what a list relies on in
-- its index, which the dummy index is proved to give and the skip list is not, and Queue/Chain.antt
-- says when memory holds a sequence.
--
-- Other threads: Memory/Exclusion.antt has one node and any number of threads that lock it, write
-- its word and unlock it, one access at a time; a thread without the lock may call the setters and
-- `unlock` too, and the theorems say when none does. Memory/Interference.antt lets the other
-- threads do anything; Memory/Owned.antt, Transaction/OwnNode.antt and Transaction/Among.antt let
-- them do anything but change the nodes that a transaction has locked. A worker's count in
-- Worker/Count.antt and the DEBRA variant of a new node are proved among other threads too. Most
-- of the other files are about a thread whose operation no other thread interrupts, and the
-- theorems say so.
--
-- Numbers: keys, values, versions and counters are natural numbers; a sum or an increment of the
-- source that wraps has its modulus written out. A version counts as such up to 2 ^ 60, where the
-- flags begin.
-- Fuel: a loop of the source is recursion on a number that bounds its rounds, and `out_of_fuel` is
-- a result of its own. The theorems on a list of n bindings ask for n + 4 rounds at most.
--
-- Not modelled: the record manager under common/ and its guards, the reclamation of retired nodes,
-- memory orders weaker than sequential consistency, printing, hashing, the threads and the timing
-- of main.cpp, and the Java benchmark under banchmark/. The parts of TX.h for queues are commented
-- out in the source.
pub mod Base
pub mod Chain
pub mod Effect
pub mod Index
pub mod LinkedList
pub mod Memory
pub mod Node
pub mod Queue
pub mod Tests
pub mod Transaction
pub mod Worker
