-- ===== src/Memory/Exclusion/Progress.antt =====
-- nodes/LNode.h: a free lock can be taken.
use transactional_data_struc.Base.{
  ℕ, true, false, List, [], ◌∷◌, ◌≡◌, ◌∙◌, refl, ap, arith, ◌==◌, update_self, Bool-cases, inl, inr,
  subst, ==→eq, eq→==, ==_refl, ◌≤◌, suc, zero,
}
use transactional_data_struc.Node.Word
use transactional_data_struc.Memory.Exclusion.{
  Place, outside, loaded, inside, writing, leaving, failed, Choice, lock, State, start, access,
  turns, holds, keeps,
}
use transactional_data_struc.Memory.Exclusion.Guard.{Sound, Guarded, turns-Guarded, start-Guarded}

-- Some turns of one thread that wants the lock.
abbrev pub tries : ℕ → ℕ → List (ℕ × Choice)
tries t zero = []
tries t (suc n) = (t, lock) ∷ tries t n

tries-outside :
    (s : State) (t : ℕ)
    → s.places t ≡ outside
    → Word.is_locked s.word ≡ false
    → (turns (tries t 2) s).places t ≡ inside
unfolding turns access
tries-outside s t at free = rw (at, free, update_self, ==_refl, update_self)

tries-loaded :
    (s : State) (t l : ℕ)
    → s.places t ≡ loaded l
    → s.word ≡ l
    → (turns (tries t 1) s).places t ≡ inside
unfolding turns access
tries-loaded s t l at same = rw (at, eq→== s.word l same, update_self)

tries-stale :
    (s : State) (t l : ℕ)
    → s.places t ≡ loaded l
    → (s.word == l) ≡ false
    → Word.is_locked s.word ≡ false
    → (turns (tries t 3) s).places t ≡ inside
unfolding turns access
tries-stale s t l at stale free =
    rw (at, stale, update_self, free, update_self, ==_refl, update_self)

-- However the accesses of any number of threads to the word of a node have fallen, from threads
-- that are outside, as long as a thread without the lock called nothing but tryLock: where the
-- lock is free, a thread that alone takes turns from then on, with tryLock again after it has
-- failed, has the lock after three accesses at most.
pub turns-progress :
    (xs : List (ℕ × Choice)) (word t : ℕ)
    → keeps xs (start word) ≡ true
    → Word.is_locked (turns xs (start word)).word ≡ false
    → (n : ℕ) × (n ≤ 3) × ((turns (tries t n) (turns xs (start word))).places t ≡ inside)
turns-progress xs word t ok free =
    from_place ((turns xs (start word)).places t) (turns xs (start word)) refl
      (turns-Guarded xs (start word) ok (start-Guarded word)) free
  where
    from_place :
        (p : Place) (s : State)
        → s.places t ≡ p
        → Guarded s
        → Word.is_locked s.word ≡ false
        → (n : ℕ) × (n ≤ 3) × ((turns (tries t n) s).places t ≡ inside)
    from_place outside s at g free = (2, omega arith, tries-outside s t at free)
    from_place (loaded l) s at g free = elim (Bool-cases (s.word == l)) [
      | inl same ↦ (1, omega arith, tries-loaded s t l at (==→eq s.word l same))
      | inr stale ↦ (3, omega arith, tries-stale s t l at stale free)
    ]
    from_place inside s at g free = absurd (ground (arith, g.held t (ap holds at), free))
    from_place (writing mine f l) s at g free =
        let x = subst (λ x. Sound x s.word) at (g.sound t) in
        absurd (ground (arith, g.held t (ap holds at ∙ x.0), free))
    from_place (leaving mine l) s at g free =
        let x = subst (λ x. Sound x s.word) at (g.sound t) in
        absurd (ground (arith, g.held t (ap holds at ∙ x.0), free))
    from_place failed s at g free = absurd (subst (λ x. Sound x s.word) at (g.sound t))
