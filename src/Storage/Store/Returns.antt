-- ===== src/Storage/Store/Returns.antt =====
-- What holds when a call of the storage returned.
use blindspot_remediation.Prelude.{Bool, true, false, ◌≡◌, refl, arith}
use blindspot_remediation.Storage.Store.Actions.{
  StorageFailure, Result, ok, err, Store, Action, resume, require,
}

pub data Returns {A : Type 0} (P : A → Store → Type 0) : Result A × Store → Type 0 where
  returned : (a : A) (s : Store) → P a s → Returns P (ok a, s)
  raised : (e : StorageFailure) (s : Store) → Returns P (err e, s)

module _ {A B : Type 0} {P : A → Store → Type 0} {Q : B → Store → Type 0} where
  pub bind :
      {f : A → Action B} {x : Result A × Store}
      → Returns P x
      → ((a : A) (s : Store) → P a s → Returns Q (f a s))
      → Returns Q (resume f x)
  bind (returned a s h) k = k a s h
  bind (raised e s) k = raised e s

module _ {B : Type 0} {Q : B → Store → Type 0} where
  -- A test that raises, or what comes after it.
  pub require-Returns :
      (b : Bool) (e : StorageFailure) (f : Unit {0} → Action B) (s : Store)
      → (b ≡ true → Returns Q (f tt s))
      → Returns Q (resume f (require b e s))
  require-Returns true e f s k = k refl
  require-Returns false e f s k = raised e s

pub only_require-Returns :
    {R : Unit {0} → Store → Type 0} (b : Bool) (e : StorageFailure) (s : Store)
    → (b ≡ true → R tt s)
    → Returns R (require b e s)
only_require-Returns true e s k = returned tt s (k refl)
only_require-Returns false e s k = raised e s

module _ {B : Type 0} (Q : B → Store → Type 0) where
  abbrev Post : Result B × Store → Type 0
  Post (ok b, s) = Q b s
  Post (err e, s) = Unit {0}

  Post-Returns : (x : Result B × Store) → Returns Q x → Post x
  Post-Returns _ (returned b s h) = h
  Post-Returns _ (raised e s) = tt

  -- The value and the store of an equation.
  pub Returns-at : (x : Result B × Store) (b : B) (s : Store) → Returns Q x → x ≡ (ok b, s) → Q b s
  Returns-at x b s r e = rw e at (Post-Returns x r)

-- What holds of the store after a return or a raise, beside what holds after a return.
pub also :
    {A : Type 0} {P : A → Store → Type 0} (R : Store → Type 0) (x : Result A × Store)
    → Returns P x
    → R x.1
    → Returns (λ a t. P a t × R t) x
also R _ (returned a s h) r = returned a s (h, r)
also R _ (raised e s) r = raised e s

pub weaken :
    {A : Type 0} {P Q : A → Store → Type 0} {x : Result A × Store}
    → Returns P x
    → ((a : A) (s : Store) → P a s → Q a s)
    → Returns Q x
weaken (returned a s h) k = returned a s (k a s h)
weaken (raised e s) k = raised e s

-- The call raised.
abbrev pub Raises : {A : Type 0} → Result A × Store → Type 0
Raises x = (e : StorageFailure) × (x.0 ≡ err e)

pub resume-Raises :
    {A B : Type 0} (f : A → Action B) (x : Result A × Store) → Raises x → Raises (resume f x)
resume-Raises f (ok a, s) (e, h) = absurd (ground arith)
resume-Raises f (err e, s) h = (e, refl)

pub then-Raises :
    {A B : Type 0} (f : A → Action B) (x : Result A × Store)
    → ((a : A) (s : Store) → Raises (f a s))
    → Raises (resume f x)
then-Raises f (ok a, s) k = k a s
then-Raises f (err e, s) k = (e, refl)
