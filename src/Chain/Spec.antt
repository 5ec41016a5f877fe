-- ===== src/Chain/Spec.antt =====
-- A sorted map as the list of its cells: the address, the key and the value of each node, in order.
use transactional_data_struc.Base.{
  ℕ, suc, ◌<◌, ◌≤◌, Option, none, some, List, [], ◌∷◌, ◌==◌, ltb, if◌then◌else◌, ◌≡◌, refl, arith,
  true, has, Bool-cases, inl, inr,
}

abbrev pub Cell : Type 0
Cell = ℕ × ℕ × ℕ

abbrev pub Cells : Type 0
Cells = List Cell

abbrev pub addresses : Cells → List ℕ
addresses [] = []
addresses ((p, _, _) ∷ es) = p ∷ addresses es

-- Keys rise strictly, from `b` on.
abbrev pub Ascending : ℕ → Cells → Type 0
Ascending b [] = Unit
Ascending b ((_, k, _) ∷ es) = (b ≤ k) × Ascending (suc k) es

-- The value under a key.
unfoldable pub lookup : ℕ → Cells → Option ℕ
lookup key [] = none
lookup key ((_, k, v) ∷ es) = if k == key then some v else lookup key es

-- A key is bound to a value: in the cell that has the key, or in a new one at address `f`.
unfoldable pub insert : ℕ → ℕ → ℕ → Cells → Cells
insert f key v [] = (f, key, v) ∷ []
insert f key v ((p, k, u) ∷ es) =
    if k == key
    then (p, k, v) ∷ es
    else if ltb key k
    then (f, key, v) ∷ (p, k, u) ∷ es
    else (p, k, u) ∷ insert f key v es

-- A key is bound to a value where it is new.
unfoldable pub insert_absent : ℕ → ℕ → ℕ → Cells → Cells
insert_absent f key v es = elim (lookup key es) [ none ↦ insert f key v es | some u ↦ es ]

unfoldable pub erase : ℕ → Cells → Cells
erase key [] = []
erase key ((p, k, u) ∷ es) = if k == key then es else (p, k, u) ∷ erase key es

pub Ascending-mono : (a b : ℕ) (es : Cells) → a ≤ b → Ascending b es → Ascending a es
Ascending-mono a b [] h s = tt
Ascending-mono a b ((p, k, v) ∷ es) h s = (omega arith, s.1)

pub lookup-none : (key b : ℕ) (es : Cells) → key < b → Ascending b es → lookup key es ≡ none
unfolding lookup
lookup-none key b [] h s = refl
lookup-none key b ((p, k, v) ∷ es) h s = ground (arith, lookup-none key (suc k) es)

-- The laws of a map, for lists whose keys rise.
pub lookup-insert :
    (f key v j b : ℕ) (es : Cells)
    → Ascending b es
    → lookup j (insert f key v es) ≡ (if key == j then some v else lookup j es)
unfolding lookup insert
lookup-insert f key v j b [] s = refl
lookup-insert f key v j b ((p, k, u) ∷ es) s = ground (arith, lookup-insert f key v j (suc k) es)

pub lookup-erase :
    (key j b : ℕ) (es : Cells)
    → Ascending b es
    → lookup j (erase key es) ≡ (if key == j then none else lookup j es)
unfolding lookup erase
lookup-erase key j b [] s = ground arith
lookup-erase key j b ((p, k, u) ∷ es) s =
    ground (arith, lookup-erase key j (suc k) es, lookup-none key (suc k) es)

pub insert-Ascending :
    (f key v b : ℕ) (es : Cells) → b ≤ key → Ascending b es → Ascending b (insert f key v es)
unfolding insert
insert-Ascending f key v b [] h s = (h, tt)
insert-Ascending f key v b ((p, k, u) ∷ es) h s =
    ground (arith, insert-Ascending f key v (suc k) es)

pub erase-Ascending : (key b : ℕ) (es : Cells) → Ascending b es → Ascending b (erase key es)
unfolding erase
erase-Ascending key b [] s = tt
erase-Ascending key b ((p, k, u) ∷ es) s =
    ground (arith, erase-Ascending key (suc k) es, Ascending-mono b (suc k) es)

-- The address of the cell with a key, if there is one.
unfoldable pub address : ℕ → Cells → List ℕ
address key [] = []
address key ((p, k, v) ∷ es) = if k == key then p ∷ [] else address key es

pub erase-absent : (key : ℕ) (es : Cells) → lookup key es ≡ none → erase key es ≡ es
unfolding lookup erase
erase-absent key [] h = refl
erase-absent key ((p, k, u) ∷ es) h = ground (arith, erase-absent key es)

pub address-absent : (key : ℕ) (es : Cells) → lookup key es ≡ none → address key es ≡ []
unfolding lookup address
address-absent key [] h = refl
address-absent key ((p, k, u) ∷ es) h = ground (arith, address-absent key es)

pub address-bound :
    (key : ℕ) (es : Cells) {v : ℕ}
    → lookup key es ≡ some v
    → (p : ℕ) × (address key es ≡ p ∷ []) × (has p (addresses es) ≡ true)
unfolding lookup address
address-bound key [] h = absurd (ground arith)
address-bound key ((p, k, u) ∷ es) {v} h = elim (Bool-cases (k == key)) [
  | inl hit ↦ (p, rw hit, ground arith)
  | inr miss ↦
      let (q, e, i) = address-bound key es {v = v} (ground (arith, h, miss)) in
      (q, rw miss e, ground (arith, i))
]
