-- ===== src/Index/SkipList/Row.antt =====
-- nodes/Index.h: `walkLevel`, when no other thread acts meanwhile.
use transactional_data_struc.Base.{
  ℕ, Bool, true, false, Option, some, List, [], ◌∷◌, ◌≡◌, ◌≢◌, ltb, if◌then◌else◌, has, is_some,
  update, update_self, update_ne, ne→==, ==_refl, arith,
}
use transactional_data_struc.Effect.{World, ok}
use transactional_data_struc.Memory.{Ptr, null, Node, Heap}
use transactional_data_struc.Index.SkipList.{IndexNode, View, set_nodes, cas_right, unlink}

abbrev pub IndexNodes : Type 0
IndexNodes = Ptr → Option IndexNode

-- What a level has behind one index node: the address of each further one, its key, and whether its
-- node of the list has a value.
abbrev pub Entries : Type 0
Entries = List (Ptr × ℕ × Bool)

abbrev pub addresses : Entries → List Ptr
addresses [] = []
addresses ((r, _, _) ∷ row) = r ∷ addresses row

-- The index node `q` is `i`, and the entries follow to its right.
pub data Row (ns : IndexNodes) (h : Heap) : Ptr → IndexNode → Entries → Type 0 where
  last : {q : Ptr} {i : IndexNode} → ns q ≡ some i → i.right ≡ null → Row ns h q i []
  more :
      {q r k : ℕ} {b : Bool} {i j : IndexNode} {n : Node} {row : Entries}
      → ns q ≡ some i
      → i.right ≡ r
      → r ≢ null
      → h j.node ≡ some n
      → n.key ≡ k
      → is_some n.val ≡ b
      → Row ns h r j row
      → Row ns h q i ((r, k, b) ∷ row)

-- The last entry with a value, from `q` on, before the first one with a value and a key that is not
-- below `key`; and that one, or null.
abbrev pub place : ℕ → Ptr → Entries → Ptr × Ptr
place key q [] = (q, null)
place key q ((r, k, false) ∷ row) = place key q row
place key q ((r, k, true) ∷ row) = if ltb k key then place key r row else (q, r)

-- The node of an index node has a value.
abbrev pub IsAlive : Heap → IndexNode → Type 0
IsAlive h i = (n : Node) × (h i.node ≡ some n) × (is_some n.val ≡ true)

pub Row-head :
    {ns : IndexNodes} {h : Heap} {q : Ptr} {i : IndexNode} {row : Entries}
    → Row ns h q i row
    → ns q ≡ some i
Row-head (last at end) = at
Row-head (more at e ne l k v rest) = at

-- A change of an index node elsewhere.
Row-frame :
    {ns : IndexNodes} {h : Heap} {r : Ptr} {j : IndexNode} {row : Entries} (q : Ptr)
    (o : Option IndexNode)
    → has q (r ∷ addresses row) ≡ false
    → Row ns h r j row
    → Row (update ns q o) h r j row
Row-frame {ns} {r} q o out (last at end) = last (ground (arith, update_ne ns q o r)) end
Row-frame {ns} {r} q o out (more at e ne l k v rest) =
    more (ground (arith, update_ne ns q o r)) e ne l k v (Row-frame q o (ground arith) rest)

-- `q` takes over what `r` has to its right.
pub Row-bypass :
    {ns : IndexNodes} {h : Heap} {r : Ptr} {j : IndexNode} {row : Entries} (q : Ptr) (i : IndexNode)
    → has q (addresses row) ≡ false
    → Row ns h r j row
    → Row (update ns q (some (record i { right = j.right }))) h q (record i { right = j.right }) row
Row-bypass {ns} {j} q i out (last at end) = last (update_self ns q _) end
Row-bypass {ns} {j} q i out (more at e ne l k v rest) =
    more (update_self ns q _) e ne l k v (Row-frame q _ out rest)

abbrev pub W : Type 0
W = World View (Unit {0})

abbrev pub bypassed : W → Ptr → IndexNode → Ptr → W
bypassed w q i r = record w {
  shared = set_nodes w.shared (update w.shared.index.nodes q (some (record i { right = r })));
}

pub unlink-run :
    (w : W) (q r : Ptr) {i j : IndexNode}
    → w.shared.index.nodes q ≡ some i
    → i.right ≡ r
    → r ≢ null
    → w.shared.index.nodes r ≡ some j
    → IsAlive w.shared.list i
    → unlink q r w [] ≡ ok true (bypassed w q i j.right) []
unfolding unlink cas_right
unlink-run w q r at e ne at_r (n, at_n, alive) =
    rw (ne→== r null ne, at, at_n, alive, at_r, at, e, ==_refl)
