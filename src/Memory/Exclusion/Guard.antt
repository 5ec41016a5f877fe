-- ===== src/Memory/Exclusion/Guard.antt =====
-- nodes/LNode.h: the lock of a node excludes, and the assertions of the methods hold, among any number
-- of threads that use it in turns.
use transactional_data_struc.Base.{
  ℕ, true, false, List, [], ◌∷◌, ◌≡◌, ◌≢◌, refl, sym, ◌∙◌, ap, arith, ◌==◌, update_self, update_ne,
  Bool-cases, inl, inr, subst, ==→eq, eq→==,
}
use native.Mathlib.Decide.{ℕ_discrete}
use transactional_data_struc.Node.Word
use transactional_data_struc.Memory.Exclusion.{
  Setter, deleted_setter, singleton_setter, version_setter, version_and_singleton_setter,
  all_setter, write, Place, outside, loaded, inside, writing, leaving, failed, Choice, lock,
  release, set, State, start, move, choose, access, turn, turns, holds, may, keeps,
}

write-held : (f : Setter) (l : ℕ) → Word.is_locked l ≡ true → Word.is_locked (write f l) ≡ true
unfolding write Word.is_locked Word.set_deleted Word.set_singleton Word.set_version
    Word.set_version_and_singleton Word.set_version_and_deleted_and_singleton
write-held (deleted_setter d) l h = ground arith
write-held (singleton_setter b) l h = ground arith
write-held (version_setter v) l h = ground arith
write-held (version_and_singleton_setter v b) l h = ground arith
write-held (all_setter v d b) l h = ground arith

-- What a thread has loaded is still right: without the lock in `tryLock`, the word itself with it.
abbrev pub Sound : Place → ℕ → Type 0
Sound outside word = Unit
Sound (loaded l) word = Word.is_locked l ≡ false
Sound inside word = Unit
Sound (writing mine f l) word = (mine ≡ true) × (l ≡ word)
Sound (leaving mine l) word = (mine ≡ true) × (l ≡ word)
Sound failed word = ⊥

-- One thread at most holds the lock, and what the threads have loaded is right.
pub record Guarded (s : State) : Type 0 where
  pub one : (t u : ℕ) → holds (s.places t) ≡ true → holds (s.places u) ≡ true → t ≡ u
  pub held : (t : ℕ) → holds (s.places t) ≡ true → Word.is_locked s.word ≡ true
  pub sound : (t : ℕ) → Sound (s.places t) s.word

Sound-idle : (p : Place) (v w : ℕ) → holds p ≡ false → Sound p v → Sound p w
Sound-idle outside v w h x = tt
Sound-idle (loaded l) v w h x = x
Sound-idle inside v w h x = tt
Sound-idle (writing mine f l) v w h x = absurd (ground (arith, x.0))
Sound-idle (leaving mine l) v w h x = absurd (ground (arith, x.0))
Sound-idle failed v w h x = x

module _ (s : State) (g : Guarded s) (t : ℕ) (p : Place) where
  abbrev moved : ℕ → State
  moved w = move (record s { word = w }) t p

  at_self : (w : ℕ) → (moved w).places t ≡ p
  at_self w = update_self s.places t p

  at_other : (w u : ℕ) → u ≢ t → (moved w).places u ≡ s.places u
  at_other w u ne = update_ne s.places t p u ne

  -- A move that leaves the word, and takes no lock.
  Guarded-keep :
      Sound p s.word → (holds p ≡ true → holds (s.places t) ≡ true) → Guarded (moved s.word)
  Guarded-keep good kept =
      let was : (u : ℕ) → holds ((moved s.word).places u) ≡ true → holds (s.places u) ≡ true =
        λ u h. elim (ℕ_discrete u t) [
          | yes e ↦
              subst (λ x. holds (s.places x) ≡ true) (sym e)
                (kept (subst (λ x. holds x ≡ true) (ap (moved s.word).places e ∙ at_self s.word) h))
          | no ne ↦ subst (λ x. holds x ≡ true) (at_other s.word u ne) h
        ] in
      record {
        one = λ u v h k. g.one u v (was u h) (was v k);
        held = λ u h. g.held u (was u h);
        sound = λ u. elim (ℕ_discrete u t) [
          | yes e ↦
              subst (λ x. Sound x s.word) (sym (ap (moved s.word).places e ∙ at_self s.word)) good
          | no ne ↦ subst (λ x. Sound x s.word) (sym (at_other s.word u ne)) (g.sound u)
        ];
      }

  -- A move that changes the word, when no other thread holds the lock.
  Guarded-change :
      (w : ℕ)
      → Sound p w
      → ((u : ℕ) → u ≢ t → holds (s.places u) ≡ false)
      → (holds p ≡ true → Word.is_locked w ≡ true)
      → Guarded (moved w)
  Guarded-change w good alone shut =
      let mine : (u : ℕ) → holds ((moved w).places u) ≡ true → u ≡ t = λ u h.
        elim (ℕ_discrete u t) [
          | yes e ↦ e
          | no ne ↦ absurd (ground (arith, h, at_other w u ne, alone u ne))
        ] in
      record {
        one = λ u v h k. mine u h ∙ sym (mine v k);
        held = λ u h.
            shut (subst (λ x. holds x ≡ true) (ap (moved w).places (mine u h) ∙ at_self w) h);
        sound = λ u. elim (ℕ_discrete u t) [
          | yes e ↦ subst (λ x. Sound x w) (sym (ap (moved w).places e ∙ at_self w)) good
          | no ne ↦
              subst (λ x. Sound x w) (sym (at_other w u ne))
                (Sound-idle (s.places u) s.word w (alone u ne) (g.sound u))
        ];
      }

-- With the lock free nobody holds it; and beside its holder nobody else does.
free-idle :
    (s : State) → Guarded s → Word.is_locked s.word ≡ false → (u : ℕ) → holds (s.places u) ≡ false
free-idle s g free u = elim (Bool-cases (holds (s.places u))) [
  | inl h ↦ absurd (ground (arith, g.held u h, free))
  | inr o ↦ o
]

others-idle :
    (s : State) (t : ℕ)
    → Guarded s
    → holds (s.places t) ≡ true
    → (u : ℕ) → u ≢ t
    → holds (s.places u) ≡ false
others-idle s t g h u ne = elim (Bool-cases (holds (s.places u))) [
  | inl k ↦ absurd (ne (g.one u t k h))
  | inr o ↦ o
]

locked-held : (l : ℕ) → Word.is_locked (Word.locked l) ≡ true
unfolding Word.is_locked Word.locked
locked-held l = ground arith

-- The first access of a call, by a thread that has the lock.
choose-Guarded :
    (c : Choice) (t : ℕ) (s : State)
    → holds (s.places t) ≡ true
    → Guarded s
    → Guarded (choose true c t s)
choose-Guarded lock t s h g = rw (g.held t h) g
choose-Guarded release t s h g =
    rw (g.held t h) (Guarded-keep s g t (leaving true s.word) (refl, refl) (λ _. h))
choose-Guarded (set f) t s h g =
    rw (g.held t h) (Guarded-keep s g t (writing true f s.word) (refl, refl) (λ _. h))

try-Guarded : (t : ℕ) (s : State) → Guarded s → Guarded (choose false lock t s)
try-Guarded t s g = elim (Bool-cases (Word.is_locked s.word)) [
  | inl busy ↦ rw busy g
  | inr free ↦ rw free (Guarded-keep s g t (loaded s.word) free (λ h. absurd (ground arith)))
]

access-Guarded :
    (p : Place) (t : ℕ) (c : Choice) (s : State)
    → s.places t ≡ p
    → may p c ≡ true
    → Guarded s
    → Guarded (access p t c s)
unfolding access
access-Guarded outside t lock s at ok g = try-Guarded t s g
access-Guarded outside t release s at ok g = absurd (ground arith)
access-Guarded outside t (set f) s at ok g = absurd (ground arith)
access-Guarded (loaded l) t c s at ok g = elim (Bool-cases (s.word == l)) [
  | inl same ↦
      let e : s.word ≡ l = ==→eq s.word l same in
      let free : Word.is_locked s.word ≡ false =
        ap Word.is_locked e ∙ subst (λ x. Sound x s.word) at (g.sound t) in
      rw same (
        Guarded-change s g t inside (Word.locked l) tt (λ u ne. free-idle s g free u)
          (λ _. locked-held l))
  | inr other ↦ rw other (Guarded-keep s g t outside tt (λ h. absurd (ground arith)))
]
access-Guarded inside t c s at ok g = choose-Guarded c t s (ap holds at) g
access-Guarded (writing mine f l) t c s at ok g =
    let (m, e) : Sound (writing mine f l) s.word = subst (λ x. Sound x s.word) at (g.sound t) in
    let h : holds (s.places t) ≡ true = ap holds at ∙ m in
    rw m (
      Guarded-change s g t inside (write f l) tt (others-idle s t g h)
        (λ _. write-held f l (ap Word.is_locked e ∙ g.held t h)))
access-Guarded (leaving mine l) t c s at ok g =
    let (m, e) : Sound (leaving mine l) s.word = subst (λ x. Sound x s.word) at (g.sound t) in
    let h : holds (s.places t) ≡ true = ap holds at ∙ m in
    rw (eq→== s.word l (sym e)) (
      Guarded-change s g t outside (Word.unlocked l) tt (others-idle s t g h)
        (λ k. absurd (ground arith)))
access-Guarded failed t c s at ok g = g

pub turns-Guarded :
    (xs : List (ℕ × Choice)) (s : State) → keeps xs s ≡ true → Guarded s → Guarded (turns xs s)
unfolding turns keeps
turns-Guarded [] s ok g = g
turns-Guarded ((t, c) ∷ xs) s ok g =
    turns-Guarded xs (turn (t, c) s) (ground arith)
      (access-Guarded (s.places t) t c s refl (ground arith) g)

pub start-Guarded : (word : ℕ) → Guarded (start word)
start-Guarded word = record {
  one = λ t u h k. absurd (ground arith);
  held = λ t h. absurd (ground arith);
  sound = λ t. tt;
}

-- However the accesses of any number of threads to the word of a node fall, in tryLock, unlock
-- and the setters that assert the lock, from threads that are outside, as long as a thread
-- without the lock calls nothing but tryLock: two threads that hold the lock are one, and the
-- word is then locked.
pub turns-exclusive :
    (xs : List (ℕ × Choice)) (word t u : ℕ)
    → keeps xs (start word) ≡ true
    → holds ((turns xs (start word)).places t) ≡ true
    → holds ((turns xs (start word)).places u) ≡ true
    → (t ≡ u) × (Word.is_locked (turns xs (start word)).word ≡ true)
turns-exclusive xs word t u ok h k =
    let g = turns-Guarded xs (start word) ok (start-Guarded word) in (g.one t u h k, g.held t h)

-- However the accesses of any number of threads to the word of a node fall, in tryLock, unlock
-- and the setters that assert the lock, from threads that are outside, as long as a thread
-- without the lock calls nothing but tryLock: no assertion of unlock or of a setter fails, that
-- of the compare-and-exchange of unlock included. TXend does not keep to this where it calls
-- setSingleton in the validation of its read set.
pub turns-no_failure :
    (xs : List (ℕ × Choice)) (word t : ℕ)
    → keeps xs (start word) ≡ true
    → (turns xs (start word)).places t ≢ failed
turns-no_failure xs word t ok e =
    subst (λ x. Sound x (turns xs (start word)).word) e
      ((turns-Guarded xs (start word) ok (start-Guarded word)).sound t)
