-- ===== src/Transaction/Program.antt =====
-- The body of a transaction as a list of operations on one list, and what it means on a map. (The
-- worker of main.cpp runs such bodies; src/test has others.)
use transactional_data_struc.Base.{ℕ, ◌≡◌, is_some, Option, none, some, List, [], ◌∷◌, update}
use transactional_data_struc.Effect.{pure, ◌>>=◌, ◌>>◌}
use transactional_data_struc.Memory.{Op}
use transactional_data_struc.Index.{IndexOps}
use transactional_data_struc.Chain.Meaning.{keep_bound}
use transactional_data_struc.LinkedList.{LinkedList}
use transactional_data_struc.LinkedList.Tx.{put, put_if_absent, remove, get}
use transactional_data_struc.Transaction.{tx_begin, tx_end}

-- One call, with its arguments.
pub data Call : Type 0 where
  put_call : ℕ → ℕ → Call
  put_if_absent_call : ℕ → ℕ → Call
  remove_call : ℕ → Call
  get_call : ℕ → Call

module _ (X : IndexOps) (list : LinkedList) (fuel : ℕ) where
  unfoldable pub perform : Call → Op X.State (Option ℕ)
  perform (put_call key val) = put X list fuel key val
  perform (put_if_absent_call key val) = put_if_absent X list fuel key val
  perform (remove_call key) = remove X list fuel key
  perform (get_call key) = get X list fuel key

  -- The answers, in order.
  unfoldable pub perform_all : List Call → Op X.State (List (Option ℕ))
  perform_all [] = pure []
  perform_all (c ∷ cs) = do a ← perform c; rest ← perform_all cs; pure (a ∷ rest)

  -- A whole transaction.
  unfoldable pub transaction : List Call → Op X.State (List (Option ℕ))
  transaction cs = do tx_begin; answers ← perform_all cs; _ ← tx_end X; pure answers

-- A map from keys to values, and what a call makes of it.
abbrev pub Map : Type 0
Map = ℕ → Option ℕ

unfoldable pub effect : Call → Map → Map
effect (put_call key val) m = update m key (some val)
effect (put_if_absent_call key val) m = keep_bound (m key) m (update m key (some val))
effect (remove_call key) m = update m key none
effect (get_call key) m = m

unfoldable pub effects : List Call → Map → Map
effects [] m = m
effects (c ∷ cs) m = effects cs (effect c m)

-- A `get` and a `remove` answer what the map has. A `put` and a `putIfAbsent` answer a value where
-- the key has one: the node's, which need not be the one that the map has.
unfoldable pub Answer : Call → Map → Option ℕ → Type 0
Answer (put_call key val) m a = is_some a ≡ is_some (m key)
Answer (put_if_absent_call key val) m a = is_some a ≡ is_some (m key)
Answer (remove_call key) m a = a ≡ m key
Answer (get_call key) m a = a ≡ m key

-- The answers of the calls, one after the other.
unfoldable pub Answers : List Call → Map → List (Option ℕ) → Type 0
unfolding effect Answer
Answers [] m [] = Unit
Answers [] m (a ∷ rest) = ⊥
Answers (c ∷ cs) m [] = ⊥
Answers (c ∷ cs) m (a ∷ rest) = Answer c m a × Answers cs (effect c m) rest
