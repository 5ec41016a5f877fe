-- ===== src/Queue/Lost.antt =====
-- datatypes/Queue.h: `enqueue` in a transaction, when no other thread acts meanwhile.
use transactional_data_struc.Base.{◌≡◌}
use transactional_data_struc.Queue.Local
use transactional_data_struc.Queue.Fifo.{W}

-- Nothing that a queue or a transaction looks at has changed.
pub record Untouched (w v : W) : Type 0 where
  pub local : v.local ≡ w.local
  pub head : v.shared.head ≡ w.shared.head
  pub tail : v.shared.tail ≡ w.shared.tail
  pub size : v.shared.size ≡ w.shared.size
  pub word : v.shared.word ≡ w.shared.word
  pub gvc : v.shared.gvc ≡ w.shared.gvc
