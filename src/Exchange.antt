-- ===== src/Exchange.antt =====
-- The messages of internal/pipie/exchangestruct/exchange.pb.go. A pointer to a scalar is an
-- `Option`; a byte slice that may be nil is an `Option` where the program looks at that.
use pipie.Prelude.{ℕ, Bool, Option, Bytes}

pub data ExchangeBody : Type 0 where
  challenge_request : ExchangeBody
  challenge : Bytes → Bytes → ExchangeBody
  challenge_response : Bytes → Bytes → Bytes → ExchangeBody
  confirm : Bytes → Bytes → Bytes → ExchangeBody

pub record ExchangeFrame : Type 0 where
  pub exchange_body : Option ExchangeBody

pub data Intention : Type 0 where
  pipe_out : Intention
  port_forward_to : Option Bytes → Option ℕ → Intention
  port_forward_from : Option Bytes → Option ℕ → Intention

-- ExchangeFrame_ExchangeChallengeResponse_Payload
pub record ResponsePayload : Type 0 where
  pub pair_key : Bytes
  pub force_relay : Option Bool
  pub intention : Option Intention

-- ExchangeFrame_ExchangeConfirm_Payload
pub record ConfirmPayload : Type 0 where
  pub result : Option Bool
  pub message : Option Bytes
  pub signature : Option Bytes
  pub relay : Option Bytes
  pub pair_id : Option Bytes
