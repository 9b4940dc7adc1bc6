-- ===== src/Common/State/Ends.antt =====
-- Code with a state: what holds where it succeeds and where it fails.
use mathlib.Core.Option.{Option, none, some}
use mathlib.Core.Path.{◌≡◌, refl, subst}
use example_docker_volume_pl.Common.Results.{Outcome, ok, err, panic}
use example_docker_volume_pl.Common.State.{M, ◌>>=◌, fail_if}
use example_docker_volume_pl.Common.State.Laws.{Keeps, IfOk, Gives, Keeps-Gives}

-- What holds at the end: `Q` of the result and the state, or `R` of the state of a failure.
abbrev pub Ends : {E S A : Type 0} → (A → S → Type 0) → (S → Type 0) → Outcome E A → S → Type 0
Ends Q R (ok a) s = Q a s
Ends Q R (err e) s = R s
Ends Q R panic s = R s

abbrev pub Leads :
    {E S A : Type 0} → (S → Type 0) → (A → S → Type 0) → (S → Type 0) → M E S A → Type 0
Leads {S} P Q R m = (s : S) → P s → Ends Q R (m s).0 (m s).1

module _ {E S A : Type 0} (Q : A → S → Type 0) (R : S → Type 0) where
  Ends-IfOk : (r : Outcome E A) (s : S) → IfOk Q r s → R s → Ends Q R r s
  Ends-IfOk (ok a) s h k = h
  Ends-IfOk (err e) s h k = k
  Ends-IfOk panic s h k = k

  pub Gives-Leads :
      (P : S → Type 0) (m : M E S A)
      → ((s : S) → P s → R s)
      → Keeps P m
      → Gives P Q m
      → Leads P Q R m
  Gives-Leads P m w h k s p = Ends-IfOk (m s).0 (m s).1 (k s p) (w (m s).1 (h s p))

module _ {E S A : Type 0} (P R : S → Type 0) where
  pub Keeps-Leads : (m : M E S A) → ((s : S) → P s → R s) → Keeps P m → Leads P (λ _ s. P s) R m
  Keeps-Leads m w h = Gives-Leads (λ _ s. P s) R P m w h (Keeps-Gives m h)

module _ {E S : Type 0} (P R : S → Type 0) where
  pub fail_if-Leads :
      (o : Option E) → ((s : S) → P s → R s) → Leads P (λ _ s. (o ≡ none) × P s) R (fail_if o)
  fail_if-Leads none w s p = (refl, p)
  fail_if-Leads (some e) w s p = w s p

module _ {E S A B : Type 0} (Q : A → S → Type 0) (Q' : B → S → Type 0) (R : S → Type 0) where
  Leads-cases :
      (r : Outcome E A) (t : S) (f : A → M E S B)
      → Ends Q R r t
      → ((a : A) → Leads (Q a) Q' R (f a))
      → let u : Outcome E B × S = elim r [
        | ok a ↦ f a t
        | err e ↦ (err e, t)
        | panic ↦ (panic, t)
      ] in
        Ends Q' R u.0 u.1
  Leads-cases (ok a) t f q h = h a t q
  Leads-cases (err e) t f q h = q
  Leads-cases panic t f q h = q

  pub >>=-Leads :
      {P : S → Type 0} (m : M E S A) (f : A → M E S B)
      → Leads P Q R m
      → ((a : A) → Leads (Q a) Q' R (f a))
      → Leads P Q' R (m >>= f)
  >>=-Leads m f h k s p = Leads-cases (m s).0 (m s).1 f (h s p) k

module _ {E S A : Type 0} (P : S → Type 0) (Q : A → S → Type 0) (R : S → Type 0) where
  either :
      (I : S → Type 0) (r : Outcome E A) (s : S)
      → ((a : A) → Q a s → I s)
      → (R s → I s)
      → Ends Q R r s
      → I s
  either I (ok a) s f g h = f a h
  either I (err e) s f g h = g h
  either I panic s f g h = g h

  -- What both ends have in common.
  pub Leads-both :
      (I : S → Type 0) (m : M E S A)
      → Leads P Q R m
      → ((a : A) (s : S) → Q a s → I s)
      → ((s : S) → R s → I s)
      → (s : S) → P s
      → I (m s).1
  Leads-both I m h f g s p = either I (m s).0 (m s).1 (λ a. f a (m s).1) (g (m s).1) (h s p)

  pub Leads-ok : (m : M E S A) → Leads P Q R m → {s t : S} {a : A} → P s → m s ≡ (ok a, t) → Q a t
  Leads-ok m h {s = s} p e = subst (λ r. Ends Q R r.0 r.1) e (h s p)

module _ {E S A : Type 0} (Q Q' : A → S → Type 0) (R R' : S → Type 0)
    (f : (a : A) (s : S) → Q a s → Q' a s) (g : (s : S) → R s → R' s) where
  Ends-map : (r : Outcome E A) (s : S) → Ends Q R r s → Ends Q' R' r s
  Ends-map (ok a) s h = f a s h
  Ends-map (err e) s h = g s h
  Ends-map panic s h = g s h

  -- The ends may be weakened.
  pub Leads-map : {P : S → Type 0} (m : M E S A) → Leads P Q R m → Leads P Q' R' m
  Leads-map m h s p = Ends-map (m s).0 (m s).1 (h s p)

module _ {E S A : Type 0} (P : S → Type 0) (Q : A → S → Type 0) (R : S → Type 0) where
  Ends-ok : (r : Outcome E A) (s : S) → Ends Q R r s → IfOk Q r s
  Ends-ok (ok a) s h = h
  Ends-ok (err e) s h = tt
  Ends-ok panic s h = tt

  pub Leads-Gives : (m : M E S A) → Leads P Q R m → Gives P Q m
  Leads-Gives m h s p = Ends-ok (m s).0 (m s).1 (h s p)

-- What holds anyway.
pub Ends-with :
    {E S A : Type 0} (X : Type 0) (Q : A → S → Type 0) (R : S → Type 0) (r : Outcome E A) (s : S)
    → X
    → Ends Q R r s
    → Ends (λ a t. X × Q a t) R r s
Ends-with X Q R (ok a) s x h = (x, h)
Ends-with X Q R (err e) s x h = h
Ends-with X Q R panic s x h = h
