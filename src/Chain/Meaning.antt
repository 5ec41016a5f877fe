-- ===== src/Chain/Meaning.antt =====
-- What a list of cells stands for: a map from keys to values.
use transactional_data_struc.Base.{
  ℕ, ◌+◌, ◌≤◌, Option, none, some, [], ◌∷◌, ◌≡◌, sym, arith, length, inl, inr, Option-cases, update,
  is_some, if◌then◌else◌, suc, refl,
}
use transactional_data_struc.Chain.Spec.{
  Cells, lookup, insert, insert_absent, erase, lookup-insert, lookup-erase, lookup-none, Ascending,
}

-- A map, or another where the key has no value.
abbrev pub keep_bound : Option ℕ → (ℕ → Option ℕ) → (ℕ → Option ℕ) → ℕ → Option ℕ
keep_bound none m n = n
keep_bound (some v) m n = m

-- A list of cells has the values of a map.
abbrev pub Reads : Cells → (ℕ → Option ℕ) → Type 0
Reads es m = (k : ℕ) → lookup k es ≡ m k

pub insert-Reads :
    (f key v : ℕ) (es : Cells) (m : ℕ → Option ℕ)
    → Ascending 0 es
    → Reads es m
    → Reads (insert f key v es) (update m key (some v))
unfolding update
insert-Reads f key v es m asc r k = ground (arith, lookup-insert f key v k 0 es asc, r k)

pub erase-Reads :
    (key : ℕ) (es : Cells) (m : ℕ → Option ℕ)
    → Ascending 0 es
    → Reads es m
    → Reads (erase key es) (update m key none)
unfolding update
erase-Reads key es m asc r k = ground (arith, lookup-erase key k 0 es asc, r k)

pub insert_absent-new :
    (f key v : ℕ) (es : Cells) → lookup key es ≡ none → insert_absent f key v es ≡ insert f key v es
unfolding insert_absent
insert_absent-new f key v es new = rw (insert_absent, new)

pub insert_absent-bound :
    (f key v : ℕ) (es : Cells) {u : ℕ} → lookup key es ≡ some u → insert_absent f key v es ≡ es
unfolding insert_absent
insert_absent-bound f key v es old = rw (insert_absent, old)

pub insert_absent-Reads :
    (f key v : ℕ) (es : Cells) (m : ℕ → Option ℕ)
    → Ascending 0 es
    → Reads es m
    → Reads (insert_absent f key v es) (keep_bound (m key) m (update m key (some v)))
insert_absent-Reads f key v es m asc r = elim (Option-cases (lookup key es)) [
  | inl new ↦
      rw (insert_absent-new f key v es new, sym (r key), new) (insert-Reads f key v es m asc r)
  | inr (u, old) ↦ rw (insert_absent-bound f key v es old, sym (r key), old) r
]

pub length-insert : (f key v : ℕ) (es : Cells) → length (insert f key v es) ≤ length es + 1
unfolding insert
length-insert f key v [] = omega arith
length-insert f key v ((p, k, u) ∷ es) = ground (arith, length-insert f key v es)

pub length-insert_absent :
    (f key v : ℕ) (es : Cells) → length (insert_absent f key v es) ≤ length es + 1
length-insert_absent f key v es = elim (Option-cases (lookup key es)) [
  | inl new ↦ rw (insert_absent-new f key v es new) (length-insert f key v es)
  | inr (u, old) ↦ rw (insert_absent-bound f key v es old) (omega arith)
]

pub length-erase : (key : ℕ) (es : Cells) → length (erase key es) ≤ length es
unfolding erase
length-erase key [] = omega arith
length-erase key ((p, k, u) ∷ es) = ground (arith, length-erase key es)

-- A list grows by one where the key is new, and by nothing where it is not.
pub length-insert_exact :
    (f key v b : ℕ) (es : Cells)
    → Ascending b es
    → length (insert f key v es) ≡ (if is_some (lookup key es) then length es else length es + 1)
unfolding lookup insert
length-insert_exact f key v b [] asc = refl
length-insert_exact f key v b ((p, k, u) ∷ es) asc =
    ground (arith, length-insert_exact f key v (suc k) es, lookup-none key (suc k) es)
