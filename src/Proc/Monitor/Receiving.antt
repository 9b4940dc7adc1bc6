-- ===== src/Proc/Monitor/Receiving.antt =====
-- The error channel of a monitor as a channel, and what `CancelProcess` and `KillProcess` read.
use example_docker_volume_pl.Common.{
  ℕ, ◌≡◌, refl, Bool, true, false, Option, none, some, [], ◌∷◌, ok,
}
use example_docker_volume_pl.Utils.Channels.{Channel, receive_non_blocking}
use example_docker_volume_pl.Os.{Os}
use example_docker_volume_pl.Proc.Monitor.{Error, Watch, receive_message}

-- `chError`, which nobody closes.
abbrev pub error_channel : Option (Option Error) → Channel (Option Error)
error_channel message = record {
  closed = false;
  values = elim message [ none ↦ [] | some e ↦ e ∷ [] ];
}

abbrev is_some : Option (Option Error) → Bool
is_some none = false
is_some (some e) = true

module _ (os : Os) (btime : ℕ) where
  open os use {World}

  -- `receive_message` is `ReceiveNonBlocking` on the channel.
  pub receive_message-channel :
      (s : Watch World) (message : Option (Option Error))
      → s.monitor.message ≡ message
      → ((receive_message os btime s).0 ≡ ok message)
        × (receive_non_blocking none (error_channel message) ≡ (
          (message, is_some message),
          error_channel (receive_message os btime s).1.monitor.message,
        ))
  unfolding receive_message receive_non_blocking
  receive_message-channel s none h = (rw h refl, refl)
  receive_message-channel s (some e) h = (rw h refl, refl)
