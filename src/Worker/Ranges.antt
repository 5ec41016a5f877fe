-- ===== src/Worker/Ranges.antt =====
-- main.cpp: the ranges of tasks that `main` gives to the workers.
use transactional_data_struc.Base.{
  ℕ, zero, suc, ◌+◌, ◌*◌, ◌/◌, ◌%◌, ◌^◌, ◌≤◌, ◌<◌, List, [], ◌∷◌, ◌++◌, ◌≡◌, refl, sym, ap, ◌∙◌,
  arith, length, subst,
}
use native.Mathlib.Nat.{
  div-le_of_le-mul, div-le_self, div-mul-le_self, le-div_iff_mul-le, mul-le-mul,
  mul-div_cancel_left,
}
use transactional_data_struc.Worker.{int}

-- `index_begin` and `index_end` of the worker `i`: products of type `size_t`, narrowed to `int`.
unfoldable pub index_begin : ℕ → ℕ → ℕ → ℕ
index_begin n_tasks n_threads i = int ((i * n_tasks) % 2 ^ 64 / n_threads)

unfoldable pub index_end : ℕ → ℕ → ℕ → ℕ
index_end n_tasks n_threads i = int (((i + 1) * n_tasks) % 2 ^ 64 / n_threads)

-- The elements of a list from `b` on, up to but without the one at `e`.
unfoldable pub slice : {A : Type 0} → ℕ → ℕ → List A → List A
slice b e [] = []
slice zero zero (x ∷ xs) = []
slice zero (suc e) (x ∷ xs) = x ∷ slice zero e xs
slice (suc b) zero (x ∷ xs) = []
slice (suc b) (suc e) (x ∷ xs) = slice b e xs

-- The tasks of the first `k` workers, one after the other.
unfoldable pub given : {A : Type 0} → ℕ → ℕ → ℕ → List A → List A
unfolding index_begin index_end slice
given n_tasks n_threads zero tasks = []
given n_tasks n_threads (suc k) tasks =
    given n_tasks n_threads k tasks
    ++ slice (index_begin n_tasks n_threads k) (index_end n_tasks n_threads k) tasks

div_mono : (a b k : ℕ) → 0 < k → a ≤ b → a / k ≤ b / k
div_mono a b k pos le =
    let low : (a / k) * k ≤ a = div-mul-le_self a k in
    (le-div_iff_mul-le {k = k} {x = a / k} {y = b} pos).1 (omega arith)

module _ {A : Type 0} where
  slice-join : (b e : ℕ) (xs : List A) → b ≤ e → slice 0 b xs ++ slice b e xs ≡ slice 0 e xs
  unfolding slice
  slice-join b e [] le = refl
  slice-join zero zero (x ∷ xs) le = refl
  slice-join zero (suc e) (x ∷ xs) le = refl
  slice-join (suc b) zero (x ∷ xs) le = absurd (omega arith)
  slice-join (suc b) (suc e) (x ∷ xs) le = ap (λ ys. x ∷ ys) (slice-join b e xs (omega arith))

  slice-all : (xs : List A) → slice 0 (length xs) xs ≡ xs
  unfolding slice
  slice-all [] = refl
  slice-all (x ∷ xs) = ap (λ ys. x ∷ ys) (slice-all xs)

  slice-nothing : (xs : List A) → slice 0 0 xs ≡ []
  unfolding slice
  slice-nothing [] = refl
  slice-nothing (x ∷ xs) = refl

module _ (n t : ℕ) (tasks_fit : n < 2 ^ 31) (threads_fit : t < 2 ^ 32) (pos : 0 < t) where
  -- The bounds of a range, without the machine's words.
  bound : (k : ℕ) → k ≤ t → int ((k * n) % 2 ^ 64 / t) ≡ k * n / t
  bound k le =
      let small : k * n ≤ 2 ^ 32 * 2 ^ 31 =
        mul-le-mul {n₂ = 2 ^ 32} {m₂ = 2 ^ 31} (omega arith) (omega arith) in
      let fits : (k * n) % 2 ^ 64 ≡ k * n = omega arith in
      let most : k * n ≤ t * n = mul-le-mul le (omega arith) in
      let last : k * n / t ≤ n = div-le_of_le-mul t most in
      ap (λ x. int (x / t)) fits ∙ keep (k * n / t) last
    where
      keep : (x : ℕ) → x ≤ n → int x ≡ x
      keep x le = omega arith

  given-slice :
      {A : Type 0} (k : ℕ) (tasks : List A) → k ≤ t → given n t k tasks ≡ slice 0 (k * n / t) tasks
  unfolding given index_begin index_end
  given-slice zero tasks le =
      let none_yet : 0 * n / t ≡ 0 = omega (arith, div-le_self (0 * n) t) in
      sym (ap (λ k. slice 0 k tasks) none_yet ∙ slice-nothing tasks)
  given-slice (suc k) tasks le =
      let up : k * n / t ≤ (k + 1) * n / t =
        div_mono (k * n) ((k + 1) * n) t pos (mul-le-mul (omega arith) (omega arith)) in
      let next : k + 1 ≡ suc k = omega arith in
      subst (λ j. given n t (suc k) tasks ≡ slice 0 (j * n / t) tasks) next
        (rw (bound k (omega arith), bound (k + 1) (omega arith), given-slice k tasks (omega arith))
          (slice-join (k * n / t) ((k + 1) * n / t) tasks up))

  -- The ranges of tasks that main gives to its workers, one after the other, are all tasks, each
  -- once and in order, where there is a worker, the number of tasks fits an int and the number
  -- of workers 32 bits.
  pub given-all : {A : Type 0} (tasks : List A) → length tasks ≡ n → given n t t tasks ≡ tasks
  given-all tasks e =
      given-slice t tasks (omega arith)
      ∙ ap (λ k. slice 0 k tasks) (mul-div_cancel_left n pos ∙ sym e)
      ∙ slice-all tasks
