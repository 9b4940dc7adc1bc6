-- ===== src/Proc/Stat/Sending.antt =====
-- What the two goroutines of `GetProcessInfo` send, and which of it is heard.
use example_docker_volume_pl.Common.{
  ◌≡◌, ◌≢◌, refl, Bool, true, false, ◌&&◌, Option, none, some, List, [], ◌∷◌, ◌++◌, arith, All,
}
use example_docker_volume_pl.Proc.Info.{Error}
use example_docker_volume_pl.Proc.Stat.{receive, first_error}

-- A goroutine that closes its file last sends its errors first: its messages are a closing message
-- without an error, or they begin with an error.
abbrev pub IsSent : List (Option Error) → Type 0
IsSent [] = ⊥
IsSent (none ∷ []) = Unit {0}
IsSent (none ∷ m ∷ ms) = ⊥
IsSent (some e ∷ ms) = Unit {0}

abbrev pub is_clean : List (Option Error) → Bool
is_clean [] = true
is_clean (none ∷ ms) = is_clean ms
is_clean (some e ∷ ms) = false

-- Two messages are enough to hear of an error, whatever the order.
pub first_error-clean :
    (b c : Bool) (ms ns : List (Option Error))
    → IsSent ms
    → IsSent ns
    → (first_error b c ms ns ≡ none)
    → (is_clean ms && is_clean ns) ≡ true
unfolding first_error
first_error-clean b c [] ns hm hn e = elim hm [ ]
first_error-clean b c (none ∷ m ∷ ms) ns hm hn e = elim hm [ ]
first_error-clean b c (none ∷ []) [] hm hn e = elim hn [ ]
first_error-clean b c (some x ∷ ms) [] hm hn e = elim hn [ ]
first_error-clean b c (none ∷ []) (none ∷ n ∷ ns) hm hn e = elim hn [ ]
first_error-clean b c (some x ∷ ms) (none ∷ n ∷ ns) hm hn e = elim hn [ ]
first_error-clean b c (none ∷ []) (none ∷ []) hm hn e = refl
first_error-clean b c (none ∷ []) (some y ∷ ns) hm hn e = ground arith
first_error-clean b c (some x ∷ ms) (none ∷ []) hm hn e = ground arith
first_error-clean b c (some x ∷ ms) (some y ∷ ns) hm hn e = ground arith

receive-clean :
    (b : Bool) (ms ns : List (Option Error))
    → is_clean ms ≡ true
    → is_clean ns ≡ true
    → let (m, ms', ns') = receive b ms ns in
      (m ≡ none) × (is_clean ms' ≡ true) × (is_clean ns' ≡ true)
receive-clean true [] [] h k = (refl, refl, refl)
receive-clean true [] (none ∷ ns) h k = (refl, refl, k)
receive-clean true [] (some x ∷ ns) h k = absurd (cc)
receive-clean true (none ∷ ms) ns h k = (refl, h, k)
receive-clean true (some x ∷ ms) ns h k = absurd (cc)
receive-clean false [] [] h k = (refl, refl, refl)
receive-clean false (none ∷ ms) [] h k = (refl, h, refl)
receive-clean false (some x ∷ ms) [] h k = absurd (cc)
receive-clean false ms (none ∷ ns) h k = (refl, h, k)
receive-clean false ms (some x ∷ ns) h k = absurd (cc)

pub clean-first_error :
    (b c : Bool) (ms ns : List (Option Error))
    → is_clean ms ≡ true
    → is_clean ns ≡ true
    → first_error b c ms ns ≡ none
unfolding first_error
clean-first_error b c ms ns h k =
    let (_, h', k') = receive-clean b ms ns h k in
    ground (
      arith,
      receive-clean b ms ns h k,
      receive-clean c (receive b ms ns).1 (receive b ms ns).2 h' k',
    )

abbrev pub IsErrors : List (Option Error) → Type 0
IsErrors = All (λ m. m ≢ none)

pub IsSent-append :
    (ms : List (Option Error)) (m : Option Error) → IsErrors ms → IsSent (ms ++ m ∷ [])
IsSent-append [] none h = tt
IsSent-append [] (some e) h = tt
IsSent-append (none ∷ ms) m h = absurd (h.0 refl)
IsSent-append (some e ∷ ms) m h = tt

pub is_clean-append :
    (ms ns : List (Option Error)) → is_clean (ms ++ ns) ≡ (is_clean ms && is_clean ns)
is_clean-append [] ns = refl
is_clean-append (none ∷ ms) ns = is_clean-append ms ns
is_clean-append (some e ∷ ms) ns = refl
