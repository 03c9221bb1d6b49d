-- ===== src/Io/Forward/PairingExamples.antt =====
-- A pair whose local connection ends first.
use pipie.Prelude.{none}
use pipie.Io.Forward.StartPairing.{
  PairingState, start_pairing, local_goes_on, stream_goes_on, pairing_goes_on, PairingSteps,
  local_moves, stream_moves, main_moves, no_step, more_steps,
}
use pipie.Io.Forward.PairingEnds.{Orderly, PairingSteps-Orderly}

-- The goroutine of the local connection has run to its end, that of the stream has returned from its
-- copy, and startPairing has been woken.
abbrev half_ended : PairingState
half_ended = pairing_goes_on (
    stream_goes_on
      (local_goes_on (local_goes_on (local_goes_on (local_goes_on (start_pairing none))))))

half_ended-PairingSteps : PairingSteps (start_pairing none) half_ended
half_ended-PairingSteps =
    more_steps
      (more_steps
        (more_steps
          (more_steps (more_steps (more_steps no_step local_moves) local_moves) local_moves)
          local_moves)
        stream_moves)
      main_moves

PairingSteps-Orderly_example : Orderly half_ended
PairingSteps-Orderly_example = PairingSteps-Orderly half_ended-PairingSteps
