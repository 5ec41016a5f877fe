-- ===== src/Effect.antt =====
-- How C++ code is written here: a command runs on a world of two parts, the memory that all
-- threads share and the `thread_local` memory of the thread that runs.
-- Each access to shared memory is one `atomic` command. Before it the other threads may act: the
-- schedule lists what they do to shared memory before the first access, the second, and so on, and
-- they are idle once it is empty. A run that nobody disturbs has the schedule `[]`.
use transactional_data_struc.Base.{
  Bool, true, false, Option, none, some, List, [], ◌∷◌, ◌≡◌, refl, if◌then◌else◌,
}

pub data Exception : Type 0 where
  tx_abort empty_queue invalid_argument not_initialized : Exception

pub record World (H L : Type 0) : Type 0 where
  pub shared : H
  pub local : L

abbrev pub Schedule : Type 0 → Type 0
Schedule H = List (H → H)

-- `fault` is a failed `assert` or a dereferenced null pointer; `out_of_fuel` says that a loop has
-- made more rounds than its bound.
pub data Run (H L A : Type 0) : Type 0 where
  ok : A → World H L → Schedule H → Run H L A
  throw : Exception → World H L → Schedule H → Run H L A
  fault : Run H L A
  out_of_fuel : Run H L A

abbrev pub Cmd : Type 0 → Type 0 → Type 0 → Type 0
Cmd H L A = World H L → Schedule H → Run H L A

module _ {H L A : Type 0} where
  abbrev pub pure : A → Cmd H L A
  pure a w es = ok a w es

  abbrev pub raise : Exception → Cmd H L A
  raise e w es = throw e w es

  abbrev pub stuck : Cmd H L A
  stuck w es = out_of_fuel

  abbrev pub finish : Option (A × H) → World H L → Schedule H → Run H L A
  finish none w es = fault
  finish (some (a, h)) w es = ok a (record w { shared = h }) es

  -- One access to shared memory, after the next move of the other threads.
  abbrev pub atomic : (H → Option (A × H)) → Cmd H L A
  atomic f w [] = finish (f w.shared) w []
  atomic f w (e ∷ es) = finish (f (e w.shared)) w es

  abbrev pub local_read : (L → A) → Cmd H L A
  local_read f w es = ok (f w.local) w es

module _ {H L A B : Type 0} where
  abbrev pub and_then : Run H L A → (A → Cmd H L B) → Run H L B
  and_then (ok a w es) k = k a w es
  and_then (throw e w es) k = throw e w es
  and_then fault k = fault
  and_then out_of_fuel k = out_of_fuel

  infixl 5 ◌>>=◌ ◌>>◌
  abbrev pub ◌>>=◌ : Cmd H L A → (A → Cmd H L B) → Cmd H L B
  m >>= k = λ w es. and_then (m w es) k

  abbrev pub ◌>>◌ : Cmd H L A → Cmd H L B → Cmd H L B
  m >> n = m >>= λ _. n

module _ {H L : Type 0} where
  abbrev pub local_write : (L → L) → Cmd H L (Unit {0})
  local_write f w es = ok tt (record w { local = f w.local }) es

  abbrev pub assert : Bool → Cmd H L (Unit {0})
  assert true w es = ok tt w es
  assert false w es = fault

-- A run that returns went through its first part.
pub and_then-ok :
    {H L A B : Type 0} (r : Run H L A) (k : A → Cmd H L B) {b : B} {w : World H L} {es : Schedule H}
    → and_then r k ≡ ok b w es
    → (a : A) × (v : World H L) × (ds : Schedule H) × (r ≡ ok a v ds) × (k a v ds ≡ ok b w es)
and_then-ok (ok a v ds) k h = (a, v, ds, refl, h)
and_then-ok (throw e v ds) k h = cc
and_then-ok fault k h = cc
and_then-ok out_of_fuel k h = cc

module _ {H L A : Type 0} (m n : Cmd H L A) (w : World H L) (es : Schedule H) where
  -- A branch on a value of the state, with the test known.
  pub if_true : {b : Bool} → b ≡ true → (if b then m else n) w es ≡ m w es
  if_true e = rw e

  pub if_false : {b : Bool} → b ≡ false → (if b then m else n) w es ≡ n w es
  if_false e = rw e
