-- ===== src/LinkedList/Overlay/Walk.antt =====
-- datatypes/LinkedList.h: the loop of `find_node` through the list that a transaction sees, when no
-- other thread acts meanwhile.
use transactional_data_struc.Base.{
  ℕ, zero, suc, ◌<◌, Bool, true, false, Option, [], ◌≡◌, ◌≢◌, refl, sym, ◌∙◌, arith, length, ne→==,
  eq→==, le→ltb, subst,
}
use native.Mathlib.Decide.{dec_lt}
use transactional_data_struc.Effect.{ok}
use transactional_data_struc.Memory.{Ptr, null, Node}
use transactional_data_struc.Memory.Solo.{Memory}
use transactional_data_struc.Chain.Spec.{Cells}
use transactional_data_struc.Chain.Shape.{
  From, last, more, At, at_end, at_hit, at_gap, at_skip, From-head,
}
use transactional_data_struc.Chain.Cover.{From-Onward}
use transactional_data_struc.LinkedList.Find.{get_next, find_from}
use transactional_data_struc.LinkedList.Overlay.{IsFit, seen, Sees, sees, get_next-run}

module _ {I : Type 0} (fuel key : ℕ) (w : Memory I) (p q : Ptr) {m : Node} (ne : q ≢ null)
    (s : Sees w q m) where
  find_from-hit : m.key ≡ key → find_from (suc fuel) key p q w [] ≡ ok (true, p, q) w []
  unfolding find_from
  find_from-hit hit = rw (ne→== q null ne, s.at, eq→== s.own.key key (s.key ∙ hit))

  find_from-gap : key < m.key → find_from (suc fuel) key p q w [] ≡ ok (false, p, q) w []
  unfolding find_from
  find_from-gap gap = ground (arith, ne, s.at, s.key)

  find_from-skip :
      m.key < key
      → get_next q w [] ≡ ok m.next w []
      → find_from (suc fuel) key p q w [] ≡ find_from fuel key q m.next w []
  unfolding find_from
  find_from-skip skip run = rw (
    ne→== q null ne,
    s.at,
    s.key,
    ne→== m.key key (omega arith),
    le→ltb key m.key (omega arith),
    run,
  )

module _ {I : Type 0} where
  abbrev pub FitIn : Memory I → Node → Type 0
  FitIn w = IsFit w.local.read_version

  abbrev pub seen_in : Memory I → Ptr → Option Node
  seen_in w = seen w.local w.shared.heap

  find_from-end :
      (fuel key : ℕ) (w : Memory I) (p q : Ptr)
      → q ≡ null
      → find_from (suc fuel) key p q w [] ≡ ok (false, p, null) w []
  unfolding find_from
  find_from-end fuel key w p q e = rw (eq→== q null e, e)

  pub find_from-At :
      (fuel key : ℕ) (w : Memory I) {p : Ptr} {n : Node} {es : Cells} (q : Ptr)
      → From (FitIn w) (seen_in w) p n es
      → n.next ≡ q
      → length es < fuel
      → (b : Bool) × (s : Ptr) × (t : Ptr) × (find_from fuel key p q w [] ≡ ok (b, s, t) w [])
        × At key p es b s t
  find_from-At zero key w q f e lt = absurd (omega arith)
  find_from-At (suc fuel) key w {p} q (last at good end) e lt =
      (false, p, null, find_from-end fuel key w p q (sym e ∙ end), at_end)
  find_from-At (suc fuel) key w {p} q (more {q = r} {k} {m} at good next ne k_ v_ f) e lt =
      let same : r ≡ q = sym next ∙ e in
      let s = sees w r (From-head f).0 (From-head f).1 in
      let from_r = λ (c : Bool × Ptr × Ptr) (e : find_from (suc fuel) key p r w [] ≡ ok c w []).
        subst (λ x. find_from (suc fuel) key p x w [] ≡ ok c w []) same e in
      elim (dec_lt key k) [
        | yes gap ↦
            (false, p, r, from_r _ (find_from-gap fuel key w p r ne s (omega arith)), at_gap gap)
        | no lt1 ↦ elim (dec_lt k key) [
          | yes skip ↦
              let (b, s1, t1, run, a) = find_from-At fuel key w m.next f refl (omega arith) in
              let onward = get_next-run w r s (From-Onward f) in
              (
                b,
                s1,
                t1,
                from_r _ (find_from-skip fuel key w p r ne s (omega arith) onward ∙ run),
                at_skip skip a,
              )
          | no lt2 ↦ (
            true,
            p,
            r,
            from_r _ (find_from-hit fuel key w p r ne s (omega arith)),
            at_hit (omega arith),
          )
        ]
      ]
