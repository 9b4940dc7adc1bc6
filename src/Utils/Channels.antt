-- ===== src/Utils/Channels.antt =====
-- src/utils/utils.go, `ReceiveNonBlocking`: a channel is the values that can be read at once, oldest
-- first (in its buffer, or from senders that wait), and whether it is closed.
use example_docker_volume_pl.Common.{
  ℕ, zero, suc, ◌≡◌, refl, Bool, true, false, Option, none, some, List, [], ◌∷◌, if◌then◌else◌,
  length, map,
}

pub record Channel {ℓ} (T : Type ℓ) : Type ℓ where
  pub closed : Bool
  pub values : List T

module _ {ℓ} {T : Type ℓ} where
  -- `ReceiveNonBlocking`: the value behind the pointer, whether it was sent, and the channel that is
  -- left. The pointer to the value of a closed channel is not nil but leads to the type's zero value,
  -- which is the first argument.
  unfoldable pub receive_non_blocking : T → Channel T → (Option T × Bool) × Channel T
  receive_non_blocking nil channel = elim channel.values [
    | x ∷ xs ↦ ((some x, true), record channel { values = xs })
    | [] ↦ if channel.closed then ((some nil, false), channel) else ((none, false), channel)
  ]

  -- Calls one after the other, the given number of them.
  unfoldable pub receive_times : ℕ → T → Channel T → List (Option T × Bool) × Channel T
  unfolding receive_non_blocking
  receive_times zero nil channel = ([], channel)
  receive_times (suc n) nil channel =
      let (answer, rest) = receive_non_blocking nil channel in
      let (answers, end) = receive_times n nil rest in (answer ∷ answers, end)

  -- As many calls as there are values receive all of them, in their order, and the channel is empty
  -- then and closed just if it was.
  pub receive_times-values :
      (nil : T) (closed : Bool) (xs : List T)
      → receive_times (length xs) nil (record { closed = closed; values = xs })
        ≡ (map (λ x. (some x, true)) xs, record { closed = closed; values = [] })
  unfolding receive_times
  receive_times-values nil closed [] = refl
  receive_times-values nil closed (x ∷ xs) = rw (receive_times-values nil closed xs) refl
