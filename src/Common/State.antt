-- ===== src/Common/State.antt =====
-- Code that changes a state and may fail: an error keeps the changes made before it.
pub mod Laws
pub mod Ends
use mathlib.Core.Option.{Option, none, some}
use example_docker_volume_pl.Common.Results.{Outcome, ok, err, panic}

abbrev pub M : Type 0 → Type 0 → Type 0 → Type 0
M E S A = S → Outcome E A × S

infixl 5 ◌>>=◌ ◌>>◌
abbrev pub ◌>>=◌ : {E S A B : Type 0} → M E S A → (A → M E S B) → M E S B
◌>>=◌ m f s = let (r, t) = m s in elim r [ ok a ↦ f a t | err e ↦ (err e, t) | panic ↦ (panic, t) ]

abbrev pub ◌>>◌ : {E S B : Type 0} → M E S (Unit {0}) → M E S B → M E S B
m >> k = m >>= λ _. k

abbrev pub return : {E S A : Type 0} → A → M E S A
return a s = (ok a, s)

abbrev pub raise : {E S A : Type 0} → E → M E S A
raise e s = (err e, s)

abbrev pub crash : {E S A : Type 0} → M E S A
crash s = (panic, s)

-- A call of the environment, which always answers.
abbrev pub call : {E S A : Type 0} → (S → A × S) → M E S A
call f s = let r = f s in (ok r.0, r.1)

abbrev pub get : {E S : Type 0} → M E S S
get s = (ok s, s)

abbrev pub modify : {E S : Type 0} → (S → S) → M E S (Unit {0})
modify f s = (ok tt, f s)

-- An error value, if there is one, ends the function.
abbrev pub fail_if : {E S : Type 0} → Option E → M E S (Unit {0})
fail_if o s = elim o [ none ↦ (ok tt, s) | some e ↦ (err e, s) ]

-- A result that has been computed.
abbrev pub of_outcome : {E S A : Type 0} → Outcome E A → M E S A
of_outcome r s = (r, s)

-- `if err := f(); err != nil { … }` with an error that does not end the function.
abbrev pub attempt : {E S A : Type 0} → M E S A → M E S (Option A)
attempt m s =
    let (r, t) = m s in
    elim r [ ok a ↦ (ok (some a), t) | err e ↦ (ok none, t) | panic ↦ (panic, t) ]

-- The same code with another type of errors.
abbrev pub with_errors : {E F S A : Type 0} → (E → F) → M E S A → M F S A
with_errors f m s =
    let (r, t) = m s in elim r [ ok a ↦ (ok a, t) | err e ↦ (err (f e), t) | panic ↦ (panic, t) ]

abbrev pub error_of : {E A : Type 0} → Outcome E A → Option E
error_of (ok a) = none
error_of (err e) = some e
error_of panic = none
