-- ===== src/Memory/Exclusion.antt =====
-- nodes/LNode.h: the lock of one node among any number of threads that call `tryLock`, write the word
-- with the setters that assert the lock, and call `unlock`, with the lock or without it. A turn is one
-- access of one thread. The setters that do not assert the lock are not among the calls.
pub mod Guard
pub mod Progress
use transactional_data_struc.Base.{
  ℕ, Bool, true, false, List, [], ◌∷◌, ◌≡◌, ◌≢◌, refl, sym, ◌∙◌, ap, arith, ◌==◌, if◌then◌else◌,
  ◌&&◌, update, update_self, update_ne, Bool-cases, inl, inr, subst,
}
use native.Mathlib.Decide.{ℕ_discrete}
use transactional_data_struc.Node.Word

-- The setters that assert the lock.
pub data Setter : Type 0 where
  deleted_setter : Bool → Setter
  singleton_setter : Bool → Setter
  version_setter : ℕ → Setter
  version_and_singleton_setter : ℕ → Bool → Setter
  all_setter : ℕ → Bool → Bool → Setter

-- Where a thread is: out of all methods, in `tryLock` with the word that it has loaded, in possession
-- of the lock, in a setter or in `unlock` with the word that it has loaded, or behind an assertion
-- that has failed. In a setter and in `unlock` the flag says whether the thread has the lock.
pub data Place : Type 0 where
  outside : Place
  loaded : ℕ → Place
  inside : Place
  writing : Bool → Setter → ℕ → Place
  leaving : Bool → ℕ → Place
  failed : Place

unfoldable pub write : Setter → ℕ → ℕ
write (deleted_setter d) l = Word.set_deleted d l
write (singleton_setter b) l = Word.set_singleton b l
write (version_setter v) l = Word.set_version v l
write (version_and_singleton_setter v b) l = Word.set_version_and_singleton v b l
write (all_setter v d b) l = Word.set_version_and_deleted_and_singleton v d b l

-- What a thread that is in no method calls next.
pub data Choice : Type 0 where
  lock : Choice
  release : Choice
  set : Setter → Choice

pub record State : Type 0 where
  pub word : ℕ
  pub places : ℕ → Place

abbrev pub start : ℕ → State
start word = record { word = word; places = λ t. outside }

abbrev pub move : State → ℕ → Place → State
move s t p = record s { places = update s.places t p }

-- The first access of a call; the assertion of `unlock` and of a setter is on what it loads.
abbrev pub choose : Bool → Choice → ℕ → State → State
choose mine lock t s = if Word.is_locked s.word then s else move s t (loaded s.word)
choose mine release t s =
    if Word.is_locked s.word then move s t (leaving mine s.word) else move s t failed
choose mine (set f) t s =
    if Word.is_locked s.word then move s t (writing mine f s.word) else move s t failed

-- The next access of a thread, from its place.
unfoldable pub access : Place → ℕ → Choice → State → State
unfolding write
access outside t c s = choose false c t s
access (loaded l) t c s =
    if s.word == l then move (record s { word = Word.locked l }) t inside else move s t outside
access inside t c s = choose true c t s
access (writing mine f l) t c s =
    move (record s { word = write f l }) t (if mine then inside else outside)
access (leaving mine l) t c s =
    if s.word == l then move (record s { word = Word.unlocked l }) t outside else move s t failed
access failed t c s = s

-- One turn is a thread and its choice.
abbrev pub turn : ℕ × Choice → State → State
turn (t, c) s = access (s.places t) t c s

unfoldable pub turns : List (ℕ × Choice) → State → State
unfolding access
turns [] s = s
turns (x ∷ xs) s = turns xs (turn x s)

abbrev pub holds : Place → Bool
holds outside = false
holds (loaded l) = false
holds inside = true
holds (writing mine f l) = mine
holds (leaving mine l) = mine
holds failed = false

-- A thread without the lock calls nothing but `tryLock`.
abbrev pub may : Place → Choice → Bool
may outside lock = true
may outside release = false
may outside (set f) = false
may (loaded l) c = true
may inside c = true
may (writing mine f l) c = true
may (leaving mine l) c = true
may failed c = true

-- The threads keep to this in all their turns.
unfoldable pub keeps : List (ℕ × Choice) → State → Bool
unfolding access
keeps [] s = true
keeps ((t, c) ∷ xs) s = may (s.places t) c && keeps xs (turn (t, c) s)
