-- ===== src/Queue/Chain.antt =====
-- datatypes/Queue.h: the nodes of a queue as a sequence, linked both ways.
use transactional_data_struc.Base.{
  ℕ, ◌+◌, ◌%◌, ◌^◌, ◌<◌, true, false, Option, none, some, List, [], ◌∷◌, ◌++◌, ◌≡◌, refl, ◌==◌, has,
  update, update_ne, length, Distinct, arith, ◌||◌,
}
use mathlib.Core.Path.{fun_ext}
use transactional_data_struc.Queue.{QNode, Queue, Ptr, is_null}
use transactional_data_struc.Queue.Word.{is_held}

abbrev pub Nodes : Type 0
Nodes = Ptr → Option QNode

-- The address and the value of each node, from the head on.
abbrev pub Items : Type 0
Items = List (Ptr × ℕ)

abbrev pub addresses : Items → List Ptr
addresses [] = []
addresses ((a, _) ∷ xs) = a ∷ addresses xs

abbrev pub last : Ptr → Items → Ptr
last p [] = p
last p ((a, _) ∷ xs) = last a xs

abbrev pub Linked : Nodes → Ptr → Ptr → Items → Type 0
Linked h prev p [] = p ≡ 0
Linked h prev p ((a, v) ∷ xs) =
    (p ≡ a)
    × (is_null a ≡ false)
    × (next : Ptr) × (h a ≡ some (record { val = v; prev = prev; next = next }))
    × Linked h a next xs

-- The queue is free and holds the items.
pub record Holds (q : Queue) (xs : Items) : Type 0 where
  pub linked : Linked q.nodes 0 q.head xs
  pub tail : q.tail ≡ last 0 xs
  pub distinct : Distinct (addresses xs)
  pub below : (p : Ptr) → has p (addresses xs) ≡ true → p < q.fresh
  pub room : 0 < q.fresh
  pub size : q.size ≡ length xs % 2 ^ 32
  pub free : is_held q.word ≡ false

pub Linked-frame :
    (h : Nodes) (prev p q : Ptr) (o : Option QNode) (xs : Items)
    → has q (addresses xs) ≡ false
    → Linked h prev p xs
    → Linked (update h q o) prev p xs
Linked-frame h prev p q o [] out l = l
Linked-frame h prev p q o ((a, v) ∷ xs) out (e, live, next, at, rest) = (
  e,
  live,
  next,
  ground (arith, update_ne h q o a),
  Linked-frame h a next q o xs (ground arith) rest,
)

pub last-has : (b : ℕ) (u : ℕ) (ys : Items) → has (last b ys) (addresses ((b, u) ∷ ys)) ≡ true
last-has b u [] = ground arith
last-has b u ((c, v) ∷ ys) = ground (arith, last-has c v ys)

-- A node is told of its new successor.
abbrev pub relink : Ptr → Option QNode → Option QNode
relink f none = none
relink f (some n) = some (record n { next = f })

abbrev pub extended : Nodes → Ptr → Ptr → ℕ → Nodes
extended h t f v =
    update (update h t (relink f (h t))) f (some (record { val = v; prev = t; next = 0 }))

pub Linked-snoc :
    (h : Nodes) (prev p a u f v : ℕ) (xs : Items)
    → Linked h prev p ((a, u) ∷ xs)
    → Distinct (addresses ((a, u) ∷ xs))
    → has f (addresses ((a, u) ∷ xs)) ≡ false
    → is_null f ≡ false
    → Linked (extended h (last a xs) f v) prev p (((a, u) ∷ xs) ++ ((f, v) ∷ []))
unfolding update
Linked-snoc h prev p a u f v [] (e, live, next, at, rest) d out new =
    (e, live, f, ground arith, (refl, new, 0, ground arith, refl))
Linked-snoc h prev p a u f v ((b, w) ∷ ys) (e, live, next, at, rest) d out new =
    let there = last-has b w ys in
    (e, live, next, ground arith, Linked-snoc h a next b w f v ys rest d.1 (ground arith) new)

pub Linked-last :
    (h : Nodes) (prev p a u : ℕ) (xs : Items)
    → Linked h prev p ((a, u) ∷ xs)
    → (n : QNode) × (h (last a xs) ≡ some n) × (is_null (last a xs) ≡ false)
Linked-last h prev p a u [] (e, live, next, at, rest) =
    (record { val = u; prev = prev; next = next }, at, live)
Linked-last h prev p a u ((b, v) ∷ ys) (e, live, next, at, rest) = Linked-last h a next b v ys rest

-- The nodes after an enqueue: the new node is made, its predecessor learns of it, and it of that.
pub extended-made :
    (h : Nodes) (t f v : ℕ) (n : QNode)
    → h t ≡ some n
    → (t == f) ≡ false
    → update
        (update
          (update h f (some (record { val = v; prev = 0; next = 0 })))
          t
          (some (record n { next = f })))
        f
        (some (record { val = v; prev = t; next = 0 }))
      ≡ extended h t f v
unfolding update
extended-made h t f v n at apart = fun_ext λ q. ground (arith, at)

pub length-snoc : (xs : Items) (x : Ptr × ℕ) → length (xs ++ (x ∷ [])) ≡ length xs + 1
length-snoc [] x = refl
length-snoc (y ∷ xs) x = ground (arith, length-snoc xs x)

pub has-snoc :
    (p f v : ℕ) (xs : Items)
    → has p (addresses (xs ++ ((f, v) ∷ []))) ≡ (has p (addresses xs) || (p == f))
has-snoc p f v [] = ground arith
has-snoc p f v ((a, u) ∷ xs) = ground (arith, has-snoc p f v xs)

pub Distinct-snoc :
    (f v : ℕ) (xs : Items)
    → Distinct (addresses xs)
    → has f (addresses xs) ≡ false
    → Distinct (addresses (xs ++ ((f, v) ∷ [])))
Distinct-snoc f v [] d out = (refl, tt)
Distinct-snoc f v ((a, u) ∷ xs) d out =
    (ground (arith, has-snoc a f v xs), Distinct-snoc f v xs d.1 (ground arith))

pub last-snoc : (p f v : ℕ) (xs : Items) → last p (xs ++ ((f, v) ∷ [])) ≡ f
last-snoc p f v [] = refl
last-snoc p f v ((a, u) ∷ xs) = last-snoc a f v xs
