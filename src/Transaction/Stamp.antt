-- ===== src/Transaction/Stamp.antt =====
-- TX.h: what a commit leaves behind, as a description of its own.
use transactional_data_struc.Base.{
  ℕ, ◌+◌, ◌^◌, ◌<◌, true, false, ◌≡◌, some, none, [], ◌++◌, find, arith,
}
use transactional_data_struc.Memory.{Ptr, Node, Heap}
use transactional_data_struc.Memory.Storage.{Local, WriteElement}
use transactional_data_struc.Memory.Solo.{Memory}
use transactional_data_struc.Node.Word
use transactional_data_struc.Transaction.Lock.{WriteSet, keys, NodesAre, IsFree, has-find}
use transactional_data_struc.Transaction.Commit.{written, written_word}
use transactional_data_struc.Transaction.IndexUpdate.{vectors}

-- Locked, written and unlocked again.
abbrev pub committed_word : ℕ → WriteElement → ℕ → ℕ
committed_word version we l = Word.unlocked (written_word version we (Word.locked l))

abbrev pub committed_node : ℕ → WriteElement → Node → Node
committed_node version we n = record (written version we n) {
  word = committed_word version we n.word;
}

abbrev pub committed : ℕ → WriteSet → Heap → Heap
committed version ws h p = elim (find p ws) [
  | none ↦ h p
  | some we ↦ elim (h p) [ none ↦ none | some n ↦ some (committed_node version we n) ]
]

-- The local storage between two transactions: nothing written, read or noted for an index.
abbrev pub emptied : Local → Local
emptied l = record {
  read_version = l.read_version;
  write_version = l.write_version;
  tx = false;
  read_only = true;
  write_set = [];
  read_set = [];
  index_add = [];
  index_remove = [];
}

-- A node that a commit has written, as the tests of its word see it.
pub record IsStamped (version : ℕ) (n : Node) : Type 0 where
  pub free : Word.is_locked n.word ≡ false
  pub version_is : Word.get_version n.word ≡ version
  pub plain : Word.is_singleton n.word ≡ false

committed-IsStamped :
    (version : ℕ) (we : WriteElement) (n : Node)
    → version < 2 ^ 60
    → IsStamped version (committed_node version we n)
unfolding Word.is_locked Word.get_version Word.is_singleton Word.locked Word.unlocked
    Word.set_deleted Word.set_version Word.set_singleton
committed-IsStamped version we n room = record {
  free = ground arith;
  version_is = ground arith;
  plain = ground arith;
}

pub all-IsStamped :
    (version : ℕ) (ws : WriteSet) (h : Heap)
    → version < 2 ^ 60
    → NodesAre IsFree h (keys ws)
    → NodesAre (IsStamped version) (committed version ws h) (keys ws)
all-IsStamped version ws h room free p i =
    let (n, at, _) = free p i in
    let (we, e) = has-find ws p i in
    (committed_node version we n, rw (committed, e, at), committed-IsStamped version we n room)

-- What a commit leaves behind.
pub record Committed {I : Type 0} (w v : Memory I) : Type 0 where
  pub heap :
      (p : Ptr) → v.shared.heap p ≡ committed (w.shared.gvc + 1) w.local.write_set w.shared.heap p
  pub stamped : NodesAre (IsStamped (w.shared.gvc + 1)) v.shared.heap (keys w.local.write_set)
  pub gvc : v.shared.gvc ≡ w.shared.gvc + 1
  pub fresh : v.shared.fresh ≡ w.shared.fresh
  pub retired : v.shared.retired ≡ w.shared.retired ++ vectors w.local.index_remove
  pub local : v.local ≡ emptied (record w.local { write_version = w.shared.gvc + 1 })
