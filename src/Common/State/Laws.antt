-- ===== src/Common/State/Laws.antt =====
-- Reasoning about code with a state, statement by statement.
use mathlib.Core.Option.{Option, none, some}
use mathlib.Core.Logic.{◌≢◌}
use mathlib.Core.Path.{◌≡◌, refl, ap, subst}
use native.Mathlib.Omega.{arith}
use example_docker_volume_pl.Common.Results.{Outcome, ok, err, panic}
use example_docker_volume_pl.Common.State.{M, ◌>>=◌, fail_if}

module _ {E S A B : Type 0} where
  bind_cases :
      (r : Outcome E A) (t : S) (f : A → M E S B) {b : B} {u : S}
      → ◌≡◌ {A = Outcome E B × S}
          (elim r [ ok a ↦ f a t | err e ↦ (err e, t) | panic ↦ (panic, t) ])
          (ok b, u)
      → (a : A) × (r ≡ ok a) × (f a t ≡ (ok b, u))
  bind_cases (ok a) t f h = (a, refl, h)
  bind_cases (err e) t f h = absurd (cc)
  bind_cases panic t f h = absurd (cc)

  -- A sequence that succeeds: its first part has, and so has its second.
  pub >>=-ok :
      (m : M E S A) (f : A → M E S B) (s : S) {b : B} {u : S}
      → (m >>= f) s ≡ (ok b, u)
      → (a : A) × (t : S) × (m s ≡ (ok a, t)) × (f a t ≡ (ok b, u))
  >>=-ok m f s h =
      let (a, e, k) = bind_cases (m s).0 (m s).1 f h in (a, (m s).1, (λ i. (e i, (m s).1)), k)

  -- A sequence whose first part has succeeded goes on with the second.
  pub >>=-step :
      (m : M E S A) (f : A → M E S B) {s t : S} {a : A} → m s ≡ (ok a, t) → (m >>= f) s ≡ f a t
  >>=-step m f e =
      ap (λ r. elim r.0 [ ok a ↦ f a r.1 | err e ↦ (err e, r.1) | panic ↦ (panic, r.1) ]) e

  -- A sequence whose first part has failed ends there.
  pub >>=-stop :
      (m : M E S A) (f : A → M E S B) {s t : S} {e : E}
      → m s ≡ (err e, t)
      → (m >>= f) s ≡ (err e, t)
  >>=-stop m f e =
      ap (λ r. elim r.0 [ ok a ↦ f a r.1 | err e ↦ (err e, r.1) | panic ↦ (panic, r.1) ]) e

module _ {E S : Type 0} where
  pub fail_if-ok : (o : Option E) (s : S) {t : S} → fail_if o s ≡ (ok tt, t) → (o ≡ none) × (t ≡ s)
  fail_if-ok none s h = (refl, ground arith)
  fail_if-ok (some e) s h = absurd (cc)

-- An invariant of the state that a piece of code keeps, however it ends.
abbrev pub Keeps : {E S A : Type 0} → (S → Type 0) → M E S A → Type 0
Keeps {S} I m = (s : S) → I s → I (m s).1

module _ {E S : Type 0} (I : S → Type 0) where
  keeps_cases :
      {A B : Type 0} (r : Outcome E A) (t : S) (f : A → M E S B)
      → I t
      → ((a : A) → Keeps I (f a))
      → I (
          let u : Outcome E B × S = elim r [
            | ok a ↦ f a t
            | err e ↦ (err e, t)
            | panic ↦ (panic, t)
          ] in
          u.1)
  keeps_cases (ok a) t f h k = k a t h
  keeps_cases (err e) t f h k = h
  keeps_cases panic t f h k = h

  pub >>=-Keeps :
      {A B : Type 0} (m : M E S A) (f : A → M E S B)
      → Keeps I m
      → ((a : A) → Keeps I (f a))
      → Keeps I (m >>= f)
  >>=-Keeps m f h k s i = keeps_cases (m s).0 (m s).1 f (h s i) k

-- From a state with `P` the code does not panic, and the state where it ends has `Q`.
abbrev pub Safe : {E S A : Type 0} → (S → Type 0) → (S → Type 0) → M E S A → Type 0
Safe {E} {S} {A} P Q m = (s : S) → P s → ((m s).0 ≢ panic) × Q (m s).1

module _ {E S A B : Type 0} {Q R : S → Type 0} where
  Safe-cases :
      (r : Outcome E A) (t : S) (f : A → M E S B)
      → r ≢ panic
      → Q t
      → ((t : S) → Q t → R t)
      → ((a : A) → Safe Q R (f a))
      → let u : Outcome E B × S = elim r [
        | ok a ↦ f a t
        | err e ↦ (err e, t)
        | panic ↦ (panic, t)
      ] in
        (u.0 ≢ panic) × R u.1
  Safe-cases (ok a) t f n q w h = h a t q
  Safe-cases (err e) t f n q w h = ((λ c. cc), w t q)
  Safe-cases panic t f n q w h = absurd (n refl)

module _ {E S A B : Type 0} {P Q R : S → Type 0} where
  pub >>=-Safe :
      (m : M E S A) (f : A → M E S B)
      → ((t : S) → Q t → R t)
      → Safe P Q m
      → ((a : A) → Safe Q R (f a))
      → Safe P R (m >>= f)
  >>=-Safe m f w h k s p = let (n, q) = h s p in Safe-cases (m s).0 (m s).1 f n q w k

-- What holds of the result and the state, where the code has succeeded.
abbrev pub IfOk : {E S A : Type 0} → (A → S → Type 0) → Outcome E A → S → Type 0
IfOk Q (ok a) s = Q a s
IfOk Q (err e) s = Unit {0}
IfOk Q panic s = Unit {0}

-- From a state with `P`, code that succeeds has the result and the state in `Q`.
abbrev pub Gives : {E S A : Type 0} → (S → Type 0) → (A → S → Type 0) → M E S A → Type 0
Gives {S} P Q m = (s : S) → P s → IfOk Q (m s).0 (m s).1

module _ {E S A : Type 0} where
  if_ok : (Q : A → S → Type 0) (r : Outcome E A) (s : S) → ((a : A) → Q a s) → IfOk Q r s
  if_ok Q (ok a) s h = h a
  if_ok Q (err e) s h = tt
  if_ok Q panic s h = tt

  pub Keeps-Gives : {P : S → Type 0} (m : M E S A) → Keeps P m → Gives P (λ _ s. P s) m
  Keeps-Gives {P} m h s p = if_ok (λ _ s. P s) (m s).0 (m s).1 (λ _. h s p)

  pub Gives-ok :
      (P : S → Type 0) (Q : A → S → Type 0) (m : M E S A)
      → Gives P Q m
      → {s t : S} {a : A} → P s
      → m s ≡ (ok a, t)
      → Q a t
  Gives-ok P Q m h {s = s} p e = subst (λ r. IfOk Q r.0 r.1) e (h s p)

module _ {E S A B : Type 0} (Q : A → S → Type 0) (R : B → S → Type 0) where
  Gives-cases :
      (r : Outcome E A) (t : S) (f : A → M E S B)
      → IfOk Q r t
      → ((a : A) → Gives (Q a) R (f a))
      → let u : Outcome E B × S = elim r [
        | ok a ↦ f a t
        | err e ↦ (err e, t)
        | panic ↦ (panic, t)
      ] in
        IfOk R u.0 u.1
  Gives-cases (ok a) t f q h = h a t q
  Gives-cases (err e) t f q h = tt
  Gives-cases panic t f q h = tt

  pub >>=-Gives :
      {P : S → Type 0} (m : M E S A) (f : A → M E S B)
      → Gives P Q m
      → ((a : A) → Gives (Q a) R (f a))
      → Gives P R (m >>= f)
  >>=-Gives m f h k s p = Gives-cases (m s).0 (m s).1 f (h s p) k
