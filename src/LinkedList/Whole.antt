-- ===== src/LinkedList/Whole.antt =====
-- datatypes/LinkedList.h: the loops over a whole list, when no other thread acts meanwhile.
use transactional_data_struc.Base.{
  ℕ, zero, suc, ◌+◌, ◌-◌, ◌%◌, ◌^◌, ◌<◌, ◌≢◌, ◌≡◌, refl, sym, ap, ◌∙◌, List, [], ◌∷◌, length, ne→==,
  arith,
}
use transactional_data_struc.Effect.{ok}
use transactional_data_struc.Memory.{Ptr, Node, retire_node}
use transactional_data_struc.Memory.Solo.{Memory}
use transactional_data_struc.Transaction.Rollback.{retiring, retiring-both, retiring-none}
use transactional_data_struc.Chain.Spec.{Cells, addresses}
use transactional_data_struc.Chain.Shape.{From, last, more, From-head}
use transactional_data_struc.Chain.Sorted.{IsSorted}
use transactional_data_struc.LinkedList.{LinkedList}
use transactional_data_struc.LinkedList.Walk.{
  retire_from, deinit_list, sum_from, get_sum_key, count_from, get_size,
}

-- The sum of the keys on 64 bits, from `res` on.
abbrev pub sum_keys : ℕ → Cells → ℕ
sum_keys res [] = res
sum_keys res ((_, k, _) ∷ es) = sum_keys ((res + k) % 2 ^ 64) es

-- All but the last of `p` and what follows it.
abbrev pub all_but_last : Ptr → List Ptr → List Ptr
all_but_last p [] = []
all_but_last p (q ∷ ps) = p ∷ all_but_last q ps

module _ {I : Type 0} {Q : Node → Type 0} where
  sum_from-run :
      (fuel : ℕ) (w : Memory I) (res : ℕ) {p : Ptr} {n : Node} {es : Cells}
      → p ≢ 0
      → From Q w.shared.heap p n es
      → length es + 1 < fuel
      → sum_from fuel p res w [] ≡ ok (sum_keys ((res + n.key) % 2 ^ 64) es) w []
  unfolding sum_from
  sum_from-run zero w res ne f lt = absurd (omega arith)
  sum_from-run (suc zero) w res ne f lt = absurd (omega arith)
  sum_from-run (suc (suc fuel)) w res {p} ne (last at good end) lt = rw (ne→== p 0 ne, at, end)
  sum_from-run (suc (suc fuel)) w res {p} {n} ne (more {q} {m} {es} at good next ne' k v f) lt =
      rw (
        ne→== p 0 ne,
        at,
        next,
        sum_from-run (suc fuel) w ((res + n.key) % 2 ^ 64) ne' f (omega arith),
        k,
      )

  count_from-run :
      (fuel : ℕ) (w : Memory I) (res : ℕ) {p : Ptr} {n : Node} {es : Cells}
      → p ≢ 0
      → From Q w.shared.heap p n es
      → length es + 1 < fuel
      → count_from fuel p res w [] ≡ ok ((res + 1 + length es) % 2 ^ 64) w []
  unfolding count_from
  count_from-run zero w res ne f lt = absurd (omega arith)
  count_from-run (suc zero) w res ne f lt = absurd (omega arith)
  count_from-run (suc (suc fuel)) w res {p} ne (last at good end) lt =
      rw (ne→== p 0 ne, at, end) (ap (λ x. ok x w []) (alone res))
    where
      alone : (a : ℕ) → (a + 1) % 2 ^ 64 ≡ (a + 1 + 0) % 2 ^ 64
      alone a = omega arith
  count_from-run (suc (suc fuel)) w res {p} ne (more {q} {es} at good next ne' k v f) lt =
      rw
        (
          ne→== p 0 ne,
          at,
          next,
          count_from-run (suc fuel) w ((res + 1) % 2 ^ 64) ne' f (omega arith),
        )
        (ap (λ x. ok x w []) (wrapped res (length es)))
    where
      wrapped : (a b : ℕ) → ((a + 1) % 2 ^ 64 + 1 + b) % 2 ^ 64 ≡ (a + 1 + suc b) % 2 ^ 64
      wrapped a b = omega arith

  retire_from-run :
      (fuel : ℕ) (w : Memory I) {p q : Ptr} {n : Node} {es : Cells}
      → From Q w.shared.heap p n es
      → n.next ≡ q
      → length es < fuel
      → retire_from fuel p q w [] ≡ ok tt (retiring w (all_but_last p (addresses es))) []
  unfolding retire_from retire_node
  retire_from-run zero w f e lt = absurd (omega arith)
  retire_from-run (suc fuel) w {p} {q} (last at good end) e lt =
      rw (sym e ∙ end) (ap (λ v. ok tt v []) (sym (retiring-none w)))
  retire_from-run (suc fuel) w {p} {q} (more {q = r} {m} {es} at good next ne k v f) e lt =
      let (at_r, _) = From-head f in
      let same : q ≡ r = sym e ∙ next in
      rw (same, ne→== r 0 ne, at_r, retire_from-run fuel (retiring w (p ∷ [])) f refl (omega arith))
        (ap (λ v. ok tt v []) (retiring-both w (p ∷ []) (all_but_last r (addresses es))))

  module _ (fuel : ℕ) (w : Memory I) (list : LinkedList) (es : Cells) where
    -- On a sorted list whose sentinel is not null, with enough fuel, get_sum_key is the sum of
    -- the keys of the sentinel and of the bindings modulo 2 ^ 64. No other thread acts
    -- meanwhile.
    pub get_sum_key-sum_keys :
        (l : IsSorted Q w.shared.heap list.head es)
        → list.head ≢ 0
        → length es + 1 < fuel
        → get_sum_key fuel list w [] ≡ ok (sum_keys 0 ((list.head, l.first.key, 0) ∷ es)) w []
    unfolding get_sum_key
    get_sum_key-sum_keys l ne lt = sum_from-run fuel w 0 ne l.from lt

    -- On a sorted list whose sentinel is not null, with enough fuel, get_size is the number of
    -- bindings modulo 2 ^ 64. No other thread acts meanwhile.
    pub get_size-length :
        IsSorted Q w.shared.heap list.head es
        → list.head ≢ 0
        → length es + 1 < fuel
        → get_size fuel list w [] ≡ ok (length es % 2 ^ 64) w []
    unfolding get_size
    get_size-length l ne lt =
        rw (count_from-run fuel w 0 ne l.from lt) (ap (λ x. ok x w []) (less (length es)))
      where
        less : (n : ℕ) → ((1 + n) % 2 ^ 64 + 2 ^ 64 - 1) % 2 ^ 64 ≡ n % 2 ^ 64
        less n = omega arith

    -- On a sorted list, with enough fuel, deinit_list retires the sentinel and the nodes behind
    -- it in order, all but the last one. No other thread acts meanwhile.
    pub deinit_list-all_but_last :
        IsSorted Q w.shared.heap list.head es
        → length es < fuel
        → deinit_list fuel list w [] ≡ ok tt (retiring w (all_but_last list.head (addresses es))) []
    unfolding deinit_list
    deinit_list-all_but_last l lt =
        let (at, _) = From-head l.from in rw (at, retire_from-run fuel w l.from refl lt)
