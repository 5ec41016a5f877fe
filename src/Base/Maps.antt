-- ===== src/Base/Maps.antt =====
-- Lists measured by native numbers, sets of addresses, association lists keyed by addresses (the
-- `std::unordered_map` and `std::unordered_set` of the source, in insertion order), and updates of
-- a function at one place.
use Prim.Native.Nat.{ℕ, suc}
use mathlib.Core.Path.{◌≡◌, refl, fun_ext}
use mathlib.Core.Bool.{Bool, true, false, ◌||◌}
use mathlib.Core.Logic.{◌≢◌}
use mathlib.Core.Option.{Option, none, some}
use mathlib.Core.List.{List, [], ◌∷◌, ◌++◌}
use native.Mathlib.Omega.{arith}
use transactional_data_struc.Base.Tests.{◌==◌, if◌then◌else◌}

abbrev pub has : ℕ → List ℕ → Bool
has a [] = false
has a (x ∷ xs) = (a == x) || has a xs

-- `set.emplace(x)`: nothing changes where the element is already there.
unfoldable pub emplace : List ℕ → ℕ → List ℕ
emplace xs x = if has x xs then xs else xs ++ (x ∷ [])

module _ {ℓ} {A : Type ℓ} where
  abbrev pub length : List A → ℕ
  length [] = 0
  length (x ∷ xs) = suc (length xs)

  -- `map.find(k)`
  unfoldable pub find : ℕ → List (ℕ × A) → Option A
  find k [] = none
  find k ((j, v) ∷ m) = if j == k then some v else find k m

  -- `map[k] = v`
  unfoldable pub assign : ℕ → A → List (ℕ × A) → List (ℕ × A)
  assign k v [] = (k, v) ∷ []
  assign k v ((j, w) ∷ m) = if j == k then (j, v) ∷ m else (j, w) ∷ assign k v m

  -- A function changed at one place.
  unfoldable pub update : (ℕ → A) → ℕ → A → ℕ → A
  update f p a q = if q == p then a else f q

  pub find-assign :
      (k j : ℕ) (v : A) (m : List (ℕ × A))
      → find j (assign k v m) ≡ (if k == j then some v else find j m)
  unfolding find assign
  find-assign k j v [] = refl
  find-assign k j v ((i, w) ∷ m) = ground (arith, find-assign k j v m)

  pub update_self : (f : ℕ → A) (p : ℕ) (a : A) → update f p a p ≡ a
  unfolding update
  update_self f p a = ground arith

  pub update_ne : (f : ℕ → A) (p : ℕ) (a : A) (q : ℕ) → q ≢ p → update f p a q ≡ f q
  unfolding update
  update_ne f p a q h = ground arith

  pub update-update : (f : ℕ → A) (p : ℕ) (a b : A) → update (update f p a) p b ≡ update f p b
  unfolding update
  update-update f p a b = fun_ext λ q. ground arith

abbrev pub Distinct : List ℕ → Type 0
Distinct [] = Unit
Distinct (x ∷ xs) = (has x xs ≡ false) × Distinct xs

pub has-later : (p q : ℕ) (xs : List ℕ) → has p xs ≡ true → has p (q ∷ xs) ≡ true
has-later p q xs i = ground arith

pub has-ne : (r p : ℕ) (xs : List ℕ) → has r xs ≡ true → has p xs ≡ false → r ≢ p
has-ne r p xs i o = λ e. cc

module _ {ℓ} {A : Type ℓ} where
  pub update_comm :
      (f : ℕ → A) (p q : ℕ) (a b : A)
      → p ≢ q
      → update (update f p a) q b ≡ update (update f q b) p a
  unfolding update
  update_comm f p q a b h = fun_ext λ r. ground arith
