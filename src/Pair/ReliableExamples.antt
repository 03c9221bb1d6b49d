-- ===== src/Pair/ReliableExamples.antt =====
-- A reliable connection that is closed twice while its queue never empties, and one with a key.
use pipie.Prelude.{
  ℕ, ◌≡◌, refl, ◌*◌, ◌↔◌, true, none, some, [], ◌∷◌, length, List, Bytes, text, arith,
}
use pipie.Pair.Reliable.{
  KcpAnswers, ReliableConn, new_reliable_conn, stabilify_udp_conn, Sample, before_close, Call,
  close_all,
}
use pipie.Pair.ReliableCloses.{
  Closed, Ticks, IsPanic, first_use, close_all-Closed, stabilify_udp_conn-IsPanic,
}

-- A clock of ten milliseconds a round, and a queue that never empties.
abbrev stalled : ℕ → Sample
stalled i = record { elapsed = 10 * i; snd_buf = 1; snd_queue = 0 }

abbrev twice : List Call
twice = (stalled, none) ∷ ((stalled, some (text "closed")) ∷ [])

stalled-Ticks : Ticks stalled
stalled-Ticks i = omega arith

stalled-before_close : before_close stalled 202 0 ≡ some 201
unfolding before_close
stalled-before_close = refl

close_all-Closed_example :
    (c : ReliableConn) × (close_all twice (new_reliable_conn true) ≡ some c)
    × Closed true (length twice) c
close_all-Closed_example = close_all-Closed true twice (stalled-Ticks, (stalled-Ticks, tt))

abbrev serve_fails : KcpAnswers
serve_fails = record { cipher = none; serve = some (text "in use"); accept = none; new_conn = none }

stabilify_udp_conn-IsPanic_example : IsPanic (stabilify_udp_conn true true serve_fails) ↔ (
    (true ≡ true)
    × (serve_fails.cipher ≡ none)
    × ((e : Bytes) × (first_use true serve_fails ≡ some e)))
stabilify_udp_conn-IsPanic_example = stabilify_udp_conn-IsPanic true true serve_fails
