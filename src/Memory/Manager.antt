-- ===== src/Memory/Manager.antt =====
-- nodes/record_mgr.h with DEBRA defined: `RecordMgr` on the record manager of common/, which is a
-- parameter.
pub mod Same
use transactional_data_struc.Base.{ℕ, ◌+◌, none, some, update}
use transactional_data_struc.Effect.{atomic, pure, ◌>>=◌}
use transactional_data_struc.Memory.{Ptr, null, Node, Op, store}

-- What `RecordMgr` calls of a record manager, each for a thread.
pub record RecordManager (I : Type 0) : Type 0 where
  pub init_thread : ℕ → Op I (Unit {0})
  pub deinit_thread : ℕ → Op I (Unit {0})
  pub allocate : ℕ → Op I Ptr
  pub retire : ℕ → Ptr → Op I (Unit {0})

pub record RecordMgr (I : Type 0) : Type 0 where
  pub manager : RecordManager I
  pub tid : ℕ

-- The default constructor of `LNode`.
abbrev pub default_node : Node
default_node = record { key = 0; val = none; next = null; word = 0 }

-- `LNodeWrapper::delete_wrapped_node`
abbrev pub delete_wrapped_node : Ptr → Ptr
delete_wrapped_node p = p

module _ {I : Type 0} where
  -- A node at a new address, as `new` makes it.
  abbrev pub new_default : Op I Ptr
  new_default = atomic λ h.
      some (
        h.fresh,
        record h { heap = update h.heap h.fresh (some default_node); fresh = h.fresh + 1 },
      )

  -- The constructor and the destructor of `RecordMgr`.
  unfoldable pub init_record_mgr : RecordManager I → ℕ → Op I (RecordMgr I)
  init_record_mgr manager tid = do
    _ ← manager.init_thread tid
    pure (record { manager = manager; tid = tid })

  unfoldable pub destroy_record_mgr : RecordMgr I → Op I (Unit {0})
  destroy_record_mgr r = r.manager.deinit_thread r.tid

  -- `get_new_node` with a key alone
  unfoldable pub get_key_node : RecordMgr I → ℕ → Op I Ptr
  get_key_node r key = do
    p ← r.manager.allocate r.tid
    _ ← store p (λ n. record n { key = key })
    pure p

  unfoldable pub get_new_node : RecordMgr I → ℕ → ℕ → Op I Ptr
  unfolding get_key_node
  get_new_node r key val = do
    p ← get_key_node r key
    _ ← store p (λ n. record n { val = some val })
    pure p

  unfoldable pub retire_node : RecordMgr I → Ptr → Op I (Unit {0})
  retire_node r p = r.manager.retire r.tid (delete_wrapped_node p)
