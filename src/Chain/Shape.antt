-- ===== src/Chain/Shape.antt =====
-- Nodes on a heap that form a list, and places in it.
use transactional_data_struc.Base.{
  ℕ, ◌<◌, ◌≤◌, Bool, true, false, some, [], ◌∷◌, has, ◌≡◌, ◌≢◌, ◌∙◌, arith, length,
}
use transactional_data_struc.Memory.{Ptr, null, Node, Heap}
use transactional_data_struc.Chain.Spec.{Cells, addresses}

-- `p` holds `n`, and from its `next` pointer the nodes of `es` follow, up to the null pointer.
-- Every node is as `Q` says.
pub data From (Q : Node → Type 0) (h : Heap) : Ptr → Node → Cells → Type 0 where
  last : {p : Ptr} {n : Node} → h p ≡ some n → Q n → n.next ≡ null → From Q h p n []
  more :
      {p q k v : ℕ} {n m : Node} {es : Cells}
      → h p ≡ some n
      → Q n
      → n.next ≡ q
      → q ≢ null
      → m.key ≡ k
      → m.val ≡ some v
      → From Q h q m es
      → From Q h p n ((q, k, v) ∷ es)

-- Where a search for `key` that starts behind `p` ends: whether the key is there, the node before
-- its place and the node at its place.
pub data At (key : ℕ) : Ptr → Cells → Bool → Ptr → Ptr → Type 0 where
  at_end : {p : Ptr} → At key p [] false p null
  at_hit : {p q k v : ℕ} {es : Cells} → k ≡ key → At key p ((q, k, v) ∷ es) true p q
  at_gap : {p q k v : ℕ} {es : Cells} → key < k → At key p ((q, k, v) ∷ es) false p q
  at_skip :
      {p q k v r s : ℕ} {b : Bool} {es : Cells}
      → k < key
      → At key q es b r s
      → At key p ((q, k, v) ∷ es) b r s

-- `r` is `p` or one of the cells with a key below `key`, and `ds` is what follows it.
pub data Leads (key : ℕ) : Ptr → Cells → Ptr → Cells → Type 0 where
  here : {p : Ptr} {es : Cells} → Leads key p es p es
  ahead :
      {p q k v r : ℕ} {es ds : Cells}
      → k < key
      → Leads key q es r ds
      → Leads key p ((q, k, v) ∷ es) r ds

pub At-Leads :
    {key p r : ℕ} {es ds : Cells} {b : Bool} {s t : Ptr}
    → Leads key p es r ds
    → At key r ds b s t
    → At key p es b s t
At-Leads here a = a
At-Leads (ahead lt l) a = at_skip lt (At-Leads l a)

-- The node before the place is the first one or a later one.
pub At-mem :
    {key p s t : ℕ} {es : Cells} {b : Bool} → At key p es b s t → has s (p ∷ addresses es) ≡ true
At-mem (at_end {p}) = ground arith
At-mem (at_hit {p} e) = ground arith
At-mem (at_gap {p} lt) = ground arith
At-mem (at_skip lt a) = ground (arith, At-mem a)

pub length-Leads : {key p r : ℕ} {es ds : Cells} → Leads key p es r ds → length ds ≤ length es
length-Leads here = omega arith
length-Leads (ahead lt l) = omega (arith, length-Leads l)

module _ {Q : Node → Type 0} {h : Heap} where
  pub From-head : {p : Ptr} {n : Node} {es : Cells} → From Q h p n es → (h p ≡ some n) × Q n
  From-head (last at good e) = (at, good)
  From-head (more at good e ne k v f) = (at, good)

  pub From-Leads :
      {key p r : ℕ} {n : Node} {es ds : Cells}
      → Leads key p es r ds
      → From Q h p n es
      → (m : Node) × From Q h r m ds
  From-Leads {n} here f = (n, f)
  From-Leads (ahead lt l) (more at good e ne k v f) = From-Leads l f

  -- A heap that agrees on the nodes of a list has the list.
  pub From-frame :
      {h' : Heap} {p : Ptr} {n : Node} {es : Cells}
      → From Q h p n es
      → ((r : Ptr) → has r (p ∷ addresses es) ≡ true → h' r ≡ h r)
      → From Q h' p n es
  From-frame (last {p} at good e) same = last (same p (ground arith) ∙ at) good e
  From-frame (more {p} at good e ne k v f) same =
      more (same p (ground arith) ∙ at) good e ne k v (From-frame f λ r i. same r (ground arith))

  -- Another node may take the place of the first, as long as it leads on as that did.
  pub From-rehead :
      {h' : Heap} {p q : Ptr} {n m : Node} {es : Cells}
      → From Q h q n es
      → h' p ≡ some m
      → m.next ≡ n.next
      → Q m
      → ((r : Ptr) → has r (addresses es) ≡ true → h' r ≡ h r)
      → From Q h' p m es
  From-rehead (last at good e) at' next good' same = last at' good' (next ∙ e)
  From-rehead (more at good e ne k v f) at' next good' same =
      more at' good' (next ∙ e) ne k v (From-frame f same)
