-- ===== src/Queue.antt =====
-- datatypes/Queue.h, datatypes/LocalQueue.h, nodes/QNode.h: a queue that threads share, with a lock
-- and a version of its own. The source does not compile yet: it mixes nodes with pointers to
-- them, and its TODO asks for a wrapper. Nodes are pointers here, with 0 for NULLOPT.
pub mod Word
pub mod Local
pub mod Singleton
pub mod Tx
pub mod Chain
pub mod Fifo
pub mod Dequeue
pub mod Lost
pub mod LocalFifo
pub mod RoundTrip
use transactional_data_struc.Base.{
  ℕ, ◌+◌, ◌-◌, ◌%◌, ◌^◌, Bool, true, false, Option, none, some, List, if◌then◌else◌, update, ◌==◌,
}
use transactional_data_struc.Effect.{Cmd, atomic, pure, ◌>>=◌}

abbrev pub Ptr : Type 0
Ptr = ℕ

abbrev pub is_null : Ptr → Bool
is_null p = p == 0

pub record QNode : Type 0 where
  pub val : ℕ
  pub prev : Ptr
  pub next : Ptr

-- The members of `Queue`, the heap of its nodes and the clock of its `TX`. `m_size` is an `int`:
-- the upper half of the numbers below 2 ^ 32 is negative.
pub record Queue : Type 0 where
  pub self : ℕ
  pub nodes : Ptr → Option QNode
  pub fresh : Ptr
  pub head : Ptr
  pub tail : Ptr
  pub size : ℕ
  pub word : ℕ
  pub gvc : ℕ

-- `LocalQueue`
pub record LocalQueue : Type 0 where
  pub first_deq : Bool
  pub node_to_deq : Ptr
  pub is_locked_by_me : Bool
  pub head : Ptr
  pub tail : Ptr
  pub size : ℕ

-- The part of the thread's local storage that a queue uses.
pub record Thread : Type 0 where
  pub tx : Bool
  pub read_version : ℕ
  pub queue_map : List (ℕ × LocalQueue)

abbrev pub QueueOp : Type 0 → Type 0
QueueOp A = Cmd Queue Thread A

-- `m_size++`, `m_size--` and `m_size > 0`.
abbrev pub up : ℕ → ℕ
up n = (n + 1) % 2 ^ 32

abbrev pub down : ℕ → ℕ
down n = (n + (2 ^ 32 - 1)) % 2 ^ 32

abbrev pub read : {A : Type 0} → (Queue → A) → QueueOp A
read f = atomic λ q. some (f q, q)

abbrev pub write : (Queue → Queue) → QueueOp (Unit {0})
write f = atomic λ q. some (tt, f q)

abbrev pub load : Ptr → QueueOp QNode
load p = atomic λ q. elim (q.nodes p) [ none ↦ none | some n ↦ some (n, q) ]

abbrev pub store : Ptr → (QNode → QNode) → QueueOp (Unit {0})
store p f = atomic λ q. elim (q.nodes p) [
  | none ↦ none
  | some n ↦ some (tt, record q { nodes = update q.nodes p (some (f n)) })
]

-- `std::make_shared<QNode>`
abbrev pub make : QNode → QueueOp Ptr
make n =
    atomic
      λ q. some (q.fresh, record q { nodes = update q.nodes q.fresh (some n); fresh = q.fresh + 1 })
