-- ===== src/Memory/Storage.antt =====
-- LocalTransaction.h, WriteElement.h, LocalStorage.h: the `thread_local` objects.
-- An `std::unordered_map` is an association list, and an iteration over it takes the order of the
-- list; the statements hold for every order, since the list is arbitrary.
use transactional_data_struc.Base.{
  ℕ, Bool, true, false, Option, none, some, List, [], ◌∷◌, ◌++◌, find, assign, emplace,
}

-- `val` is what the node is to hold, `next` where it is to point.
pub record WriteElement : Type 0 where
  pub next : ℕ
  pub val : Option ℕ
  pub deleted : Bool

-- `struct LocalTransaction` and `class LocalStorage`. A map from lists to vectors of nodes is keyed
-- by the address of the list.
pub record Local : Type 0 where
  pub read_version : ℕ
  pub write_version : ℕ
  pub tx : Bool
  pub read_only : Bool
  pub write_set : List (ℕ × WriteElement)
  pub read_set : List ℕ
  pub index_add : List (ℕ × List ℕ)
  pub index_remove : List (ℕ × List ℕ)

-- The member initialisers.
abbrev pub initial : Local
initial = record {
  read_version = 0;
  write_version = 0;
  tx = false;
  read_only = true;
  write_set = [];
  read_set = [];
  index_add = [];
  index_remove = [];
}

-- `putIntoWriteSet`
unfoldable pub put_into_write_set : ℕ → ℕ → Option ℕ → Bool → Local → Local
put_into_write_set node next val deleted l = record l {
  write_set = assign node (record { next = next; val = val; deleted = deleted }) l.write_set;
}

-- `nodes[list].push_back(node)`, on a vector that is made empty where the list has none.
unfoldable pub push_back : ℕ → ℕ → List (ℕ × List ℕ) → List (ℕ × List ℕ)
push_back list node m = elim (find list m) [
  | none ↦ assign list (node ∷ []) m
  | some nodes ↦ assign list (nodes ++ (node ∷ [])) m
]

unfoldable pub add_to_index_add : ℕ → ℕ → Local → Local
add_to_index_add list node l = record l { index_add = push_back list node l.index_add }

unfoldable pub add_to_index_remove : ℕ → ℕ → Local → Local
add_to_index_remove list node l = record l { index_remove = push_back list node l.index_remove }

unfoldable pub read_set_emplace : ℕ → Local → Local
read_set_emplace node l = record l { read_set = emplace l.read_set node }

-- What `TXend` and `handle_abort` do at their end.
unfoldable pub clear : Local → Local
clear l = record l {
  write_set = [];
  read_set = [];
  index_add = [];
  index_remove = [];
  tx = false;
  read_only = true;
}
