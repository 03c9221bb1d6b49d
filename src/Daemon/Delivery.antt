-- ===== src/Daemon/Delivery.antt =====
-- What a well-formed datagram for the daemon is handled as.
use pipie.Prelude.{
  ℕ, ==_iff, ltb, ap, ◌∙◌, ◌≤◌, false, ◌≡◌, none, some, [], ◌∷◌, Bytes, arith, Outcome, ok, take,
  drop, length, bytes_equal_iff,
}
use pipie.Platform.{Platform}
use pipie.Transfer.{TransferFrame, transfer_frame_size, transfer_version}
use pipie.Exchange.{ExchangeBody}
use pipie.Pair.Builder.{PairConnectionConfig}
use pipie.Daemon.State.{Daemon, World, Entropy}
use pipie.Daemon.Handle.{handle_body, handle_frame, handle_exchange}

-- The datagram is a frame from `source` for the daemon, and holds the message `body`.
pub record Delivers (p : Platform) (d : Daemon) (packet source : Bytes) (body : ExchangeBody)
    : Type 0 where
  pub frame : TransferFrame
  pub from : frame.source ≡ source
  pub long_enough : transfer_frame_size ≤ length packet
  pub versioned : take 1 packet ≡ transfer_version ∷ []
  pub header : p.unpack_frame (take transfer_frame_size packet) ≡ ok frame
  pub addressed : frame.destination ≡ d.transfer_code
  pub message :
      p.unmarshal_exchange (drop transfer_frame_size packet)
      ≡ (record { exchange_body = some body }, none)

take_one-head : (x y : ℕ) (xs : Bytes) → take 1 (x ∷ xs) ≡ y ∷ [] → x ≡ y
take_one-head x y xs e = cc

ltb_of_le : (a b : ℕ) → b ≤ a → ltb a b ≡ false
ltb_of_le a b h = ground arith

module _ (p : Platform) (rand : Entropy) (run_pipe : PairConnectionConfig → Outcome (Unit {0}))
    (d : Daemon) where
  handle_frame-eq :
      (frame : TransferFrame) (bytes : Bytes) (body : ExchangeBody) (w : World)
      → frame.destination ≡ d.transfer_code
      → p.unmarshal_exchange bytes ≡ (record { exchange_body = some body }, none)
      → handle_frame p rand run_pipe d frame bytes w
        ≡ handle_body p rand run_pipe d frame.source (some body) w
  unfolding handle_frame
  handle_frame-eq frame bytes body w a m = rw ((bytes_equal_iff _ _).1 a, m)

  handle_exchange-eq :
      (packet source : Bytes) (body : ExchangeBody) (w : World)
      (v : Delivers p d packet source body)
      → handle_exchange p rand run_pipe d packet w
        ≡ handle_frame p rand run_pipe d v.frame (drop transfer_frame_size packet) w
  unfolding handle_exchange
  handle_exchange-eq [] source body w v = absurd (omega (arith, v.long_enough))
  handle_exchange-eq (version ∷ rest) source body w v = rw (
    (==_iff version 1).1 (take_one-head version 1 rest v.versioned),
    ltb_of_le (length (version ∷ rest)) 65 v.long_enough,
    v.header,
  )

  pub handle_exchange-Delivers :
      (packet source : Bytes) (body : ExchangeBody) (w : World)
      → Delivers p d packet source body
      → handle_exchange p rand run_pipe d packet w
        ≡ handle_body p rand run_pipe d source (some body) w
  handle_exchange-Delivers packet source body w v =
      handle_exchange-eq packet source body w v
      ∙ handle_frame-eq v.frame (drop transfer_frame_size packet) body w v.addressed v.message
      ∙ ap (λ s. handle_body p rand run_pipe d s (some body) w) v.from
