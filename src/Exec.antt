-- ===== src/Exec.antt =====
-- A handler that reads and writes a store and may raise: it returns the store that it leaves beside
-- its answer, so that what was written before an exception stays written. The rules prove what every
-- outcome of a `do` block satisfies.
use mathlib.Core.Option.{some-injective}
use ats_smart_backend.Prelude.{ap, ◌≡◌, refl, Bool, true, false, Option, none, some}

pub data Result {ℓ} (E A : Type ℓ) : Type ℓ where
  ok : A → Result E A
  raised : E → Result E A

answer {ℓ} : {E A : Type ℓ} → Result E A → Option A
answer (ok a) = some a
answer (raised e) = none

pub ok-injective {ℓ} : {E A : Type ℓ} {a b : A} → ◌≡◌ {A = Result E A} (ok a) (ok b) → a ≡ b
unfolding answer
ok-injective {E} {A} {a} {b} e = some-injective a b (ap answer e)

-- The next step of a computation that may raise
unfoldable pub and_then : {E A B : Type 0} → Result E A → (A → Result E B) → Result E B
and_then (raised e) f = raised e
and_then (ok a) f = f a

pub and_then-ok :
    {E A B : Type 0} {r : Result E A} {a : A} (f : A → Result E B) → r ≡ ok a → and_then r f ≡ f a
unfolding and_then
and_then-ok f h = rw h refl

abbrev pub Exec : Type 0 → Type 0 → Type 0 → Type 0
Exec S E A = S → S × Result E A

module _ {S E A : Type 0} where
  unfoldable pub pure : A → Exec S E A
  pure a s = (s, ok a)

  unfoldable pub raise : E → Exec S E A
  raise e s = (s, raised e)

  -- The value of an option, or an exception.
  unfoldable pub found : Option A → E → Exec S E A
  found none e s = (s, raised e)
  found (some a) e s = (s, ok a)

module _ {S E : Type 0} where
  unfoldable pub get : Exec S E S
  get s = (s, ok s)

  unfoldable pub put : S → Exec S E (Unit {0})
  put t s = (t, ok tt)

  -- An exception unless the test passes.
  unfoldable pub require : Bool → E → Exec S E (Unit {0})
  require true e s = (s, ok tt)
  require false e s = (s, raised e)

module _ {S E A B : Type 0} where
  continue : (A → Exec S E B) → S × Result E A → S × Result E B
  continue f (s, ok a) = f a s
  continue f (s, raised e) = (s, raised e)

  infixl 10 ◌>>=◌ ◌>>◌
  -- Opening this opens the actions above too.
  unfoldable pub ◌>>=◌ : Exec S E A → (A → Exec S E B) → Exec S E B
  unfolding continue pure raise found get put require
  ◌>>=◌ m f s = continue f (m s)

  abbrev pub ◌>>◌ : Exec S E A → Exec S E B → Exec S E B
  m >> n = m >>= λ _. n

-- The rules: `Q` holds of every outcome.
module _ {S E B : Type 0} (Q : S × Result E B → Type 0) (s : S) where
  pub after_found :
      {A : Type 0} (o : Option A) (e : E) (f : A → Exec S E B)
      → (o ≡ none → Q (s, raised e))
      → ((a : A) → o ≡ some a → Q (f a s))
      → Q ((found o e >>= f) s)
  unfolding ◌>>=◌
  after_found none e f q k = q refl
  after_found (some a) e f q k = k a refl

  pub after_require :
      (b : Bool) (e : E) (f : Exec S E B)
      → (b ≡ false → Q (s, raised e))
      → (b ≡ true → Q (f s))
      → Q ((require b e >> f) s)
  unfolding ◌>>=◌
  after_require true e f q k = k refl
  after_require false e f q k = q refl

  pub after_get : (f : S → Exec S E B) → Q (f s s) → Q ((get >>= f) s)
  unfolding ◌>>=◌
  after_get f q = q

  pub after_put : (t : S) (f : Exec S E B) → Q (f t) → Q ((put t >> f) s)
  unfolding ◌>>=◌
  after_put t f q = q

  pub after_pure : (b : B) → Q (s, ok b) → Q (pure b s)
  unfolding ◌>>=◌
  after_pure b q = q

-- An action known by what its outcomes satisfy.
module _ {S E A B : Type 0} (Q : S × Result E B → Type 0) (s : S) where
  pub after :
      (R : S × Result E A → Type 0) (m : Exec S E A) (f : A → Exec S E B)
      → R (m s)
      → ((t : S) (e : E) → R (t, raised e) → Q (t, raised e))
      → ((t : S) (a : A) → R (t, ok a) → Q (f a t))
      → Q ((m >>= f) s)
  unfolding ◌>>=◌
  after R m f r q k = by_outcome (m s) r
    where
      by_outcome : (p : S × Result E A) → R p → Q (continue f p)
      by_outcome (t, ok a) r = k t a r
      by_outcome (t, raised e) r = q t e r

-- One step of a `do` block.
module _ {S E B : Type 0} (s : S) where
  pub step_found :
      {A : Type 0} {o : Option A} {a : A} (e : E) (f : A → Exec S E B)
      → o ≡ some a
      → (found o e >>= f) s ≡ f a s
  unfolding ◌>>=◌
  step_found {A} {o} {a} e f h = rw h refl

  pub step_require : {b : Bool} (e : E) (f : Exec S E B) → b ≡ true → (require b e >> f) s ≡ f s
  unfolding ◌>>=◌
  step_require e f h = rw h refl

  pub step_get : (f : S → Exec S E B) → (get >>= f) s ≡ f s s
  unfolding ◌>>=◌
  step_get f = refl

  pub step_put : (t : S) (f : Exec S E B) → (put t >> f) s ≡ f t
  unfolding ◌>>=◌
  step_put t f = refl

  pub step_pure : (b : B) → pure {E = E} b s ≡ (s, ok b)
  unfolding pure
  step_pure b = refl
