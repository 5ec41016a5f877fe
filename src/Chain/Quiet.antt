-- ===== src/Chain/Quiet.antt =====
-- Nodes that are in the list and that nobody works on.
use transactional_data_struc.Base.{ℕ, ◌≡◌, false, arith}
use transactional_data_struc.Memory.{Node}
use transactional_data_struc.Node.Word

-- A node that nobody holds and nobody has deleted.
pub record IsQuiet (n : Node) : Type 0 where
  pub free : Word.is_locked n.word ≡ false
  pub live : Word.is_deleted n.word ≡ false

pub quiet-word :
    (l : ℕ)
    → Word.is_locked l ≡ false
    → Word.is_deleted l ≡ false
    → Word.is_locked_or_deleted l ≡ false
unfolding Word.is_locked Word.is_deleted Word.is_locked_or_deleted
quiet-word l a b = ground arith
