-- ===== src/Base/State.antt =====
-- Methods that change an object and can fail: a failure keeps the changes made before it. The rules
-- say what holds of the object after a method, whether it fails or not.
use mathlib.Core.Path.{◌≡◌, refl}
use mathlib.Core.Bool.{Bool, true, false}
use mole_swarm.Base.Tests.{if◌then◌else◌}
use mole_swarm.Base.Outcome.{Result, ok, err}

abbrev pub State : Type 0 → Type 0 → Type 0 → Type 0
State S E A = S → Result E A × S

module _ {S E : Type 0} where
  abbrev pub pure : {A : Type 0} → A → State S E A
  pure a s = (ok a, s)

  abbrev pub fail : {A : Type 0} → E → State S E A
  fail e s = (err e, s)

  abbrev pub get : State S E S
  get s = (ok s, s)

  abbrev pub modify : (S → S) → State S E (Unit {0})
  modify f s = (ok tt, f s)

  -- A result computed from values only.
  abbrev pub lift : {A : Type 0} → Result E A → State S E A
  lift r s = (r, s)

  infixl 5 ◌>>=◌ ◌>>◌
  abbrev pub ◌>>=◌ : {A B : Type 0} → State S E A → (A → State S E B) → State S E B
  ◌>>=◌ m f s = elim ((m s).0) [ ok a ↦ f a ((m s).1) | err e ↦ (err e, (m s).1) ]

  abbrev pub ◌>>◌ : {B : Type 0} → State S E (Unit {0}) → State S E B → State S E B
  m >> k = m >>= λ _. k

  -- What a caller does about a failure, on the object as the failure leaves it.
  abbrev pub or_else : {A : Type 0} → State S E A → (E → State S E A) → State S E A
  or_else m k s = elim ((m s).0) [ ok a ↦ (ok a, (m s).1) | err e ↦ k e ((m s).1) ]

  abbrev pub when : Bool → State S E (Unit {0}) → State S E (Unit {0})
  when true m = m
  when false m = pure tt

  -- `Q` holds after a success, `Z` after a failure.
  abbrev pub Post : {A : Type 0} → (A → S → Type 0) → (E → S → Type 0) → Result E A × S → Type 0
  Post Q Z (ok a, s) = Q a s
  Post Q Z (err e, s) = Z e s

  pub record Runs {A : Type 0} (P : S → Type 0) (Q : A → S → Type 0) (Z : E → S → Type 0)
      (m : State S E A) : Type 0 where
    pub after : (s : S) → P s → Post Q Z (m s)

module _ {S E A B : Type 0} where
  bind-Post :
      (Q : A → S → Type 0) (R : B → S → Type 0) (Z : E → S → Type 0) (out : Result E A × S)
      (f : A → State S E B)
      → Post Q Z out
      → ((a : A) → Runs (Q a) R Z (f a))
      → Post R Z (elim (out.0) [ ok a ↦ f a (out.1) | err e ↦ (err e, out.1) ])
  bind-Post Q R Z (ok a, s) f h k = (k a).after s h
  bind-Post Q R Z (err e, s) f h k = h

  pub Runs-bind :
      {P : S → Type 0} {Q : A → S → Type 0} {R : B → S → Type 0} {Z : E → S → Type 0}
      {m : State S E A} {f : A → State S E B}
      → Runs P Q Z m
      → ((a : A) → Runs (Q a) R Z (f a))
      → Runs P R Z (m >>= f)
  Runs-bind {P} {Q} {R} {Z} {m} {f} h k = record {
    after = λ s p. bind-Post Q R Z (m s) f (h.after s p) k;
  }

module _ {S E A : Type 0} where
  pub Runs-if :
      {P : S → Type 0} {Q : A → S → Type 0} {Z : E → S → Type 0} (b : Bool) {m k : State S E A}
      → (b ≡ true → Runs P Q Z m)
      → (b ≡ false → Runs P Q Z k)
      → Runs P Q Z (if b then m else k)
  Runs-if true h g = h refl
  Runs-if false h g = g refl

module _ {S E A : Type 0} where
  or_else-Post :
      (Q : A → S → Type 0) (Z W : E → S → Type 0) (out : Result E A × S) (k : E → State S E A)
      → Post Q W out
      → ((e : E) → Runs (W e) Q Z (k e))
      → Post Q Z (elim (out.0) [ ok a ↦ (ok a, out.1) | err e ↦ k e (out.1) ])
  or_else-Post Q Z W (ok a, s) k h g = h
  or_else-Post Q Z W (err e, s) k h g = (g e).after s h

  pub Runs-or_else :
      {P : S → Type 0} {Q : A → S → Type 0} {Z W : E → S → Type 0} {m : State S E A}
      {k : E → State S E A}
      → Runs P Q W m
      → ((e : E) → Runs (W e) Q Z (k e))
      → Runs P Q Z (or_else m k)
  Runs-or_else {P} {Q} {Z} {W} {m} {k} h g = record {
    after = λ s p. or_else-Post Q Z W (m s) k (h.after s p) g;
  }

  pub Runs-pure : {Q : A → S → Type 0} {Z : E → S → Type 0} (a : A) → Runs (Q a) Q Z (pure a)
  Runs-pure a = record { after = λ s h. h }

  pub Runs-fail : {Q : A → S → Type 0} {Z : E → S → Type 0} (e : E) → Runs (Z e) Q Z (fail e)
  Runs-fail e = record { after = λ s h. h }

  -- A method runs from less and promises more.
  pub Runs-mono :
      {P P' : S → Type 0} {Q Q' : A → S → Type 0} {Z : E → S → Type 0} {m : State S E A}
      → ((s : S) → P' s → P s)
      → ((a : A) (s : S) → Q a s → Q' a s)
      → Runs P Q Z m
      → Runs P' Q' Z m
  Runs-mono {P} {P'} {Q} {Q'} {Z} {m} weaker stronger h = record {
    after = λ s p. post (m s) (h.after s (weaker s p));
  }
    where
      post : (out : Result E A × S) → Post Q Z out → Post Q' Z out
      post (ok a, s) q = stronger a s q
      post (err e, s) z = z

module _ {S E : Type 0} where
  pub Runs-modify :
      {P : S → Type 0} {Q : Unit {0} → S → Type 0} {Z : E → S → Type 0} {f : S → S}
      → ((s : S) → P s → Q tt (f s))
      → Runs P Q Z (modify f)
  Runs-modify h = record { after = h }
