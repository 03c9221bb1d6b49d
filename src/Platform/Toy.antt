-- ===== src/Platform/Toy.antt =====
-- Third-party operations of a toy kind, at which the theorems on parameters are tried.
use pipie.Prelude.{
  zero, suc, Option, none, some, [], ◌∷◌, ◌++◌, take, drop, length, replicate, Bytes, text, ok,
}
use pipie.Platform.{Platform}
use pipie.Exchange.{
  ExchangeFrame, Intention, pipe_out, port_forward_to, challenge_request, challenge_response,
}

-- An exchange message begins with its kind; a response goes on with its 32-byte token, and its
-- payload is the intention: a pipe if it is empty, a forward to port 22 if not.
abbrev parse_exchange : Bytes → ExchangeFrame × Option Bytes
parse_exchange (zero ∷ rest) = (record { exchange_body = some challenge_request }, none)
parse_exchange (suc n ∷ rest) =
    (record { exchange_body = some (challenge_response (take 32 rest) [] (drop 32 rest)) }, none)
parse_exchange _ = (record { exchange_body = none }, some (text "malformed"))

abbrev parse_intention : Bytes → Intention
parse_intention [] = pipe_out
parse_intention host = port_forward_to (some host) (some 22)

abbrev pub toy : Platform
toy = record {
  sha256 = λ b. take 32 (b ++ replicate 32 0);
  sha512 = λ b. replicate 64 (length b);
  gcm_seal = λ nonce key plain. plain;
  gcm_open = λ nonce key sealed. some sealed;
  unpack_frame =
      λ b. ok (record { version = 1; source = take 32 (drop 1 b); destination = drop 33 b });
  marshal_exchange = λ frame. ok [];
  unmarshal_exchange = parse_exchange;
  marshal_response = λ response. ok [];
  unmarshal_response = λ b.
      (record { pair_key = []; force_relay = none; intention = some (parse_intention b) }, none);
  marshal_confirm = λ confirm. ok [];
  unmarshal_confirm = λ b. (
    record { result = none; message = none; signature = none; relay = none; pair_id = none },
    some (text "malformed"),
  );
  parse_url = λ b. ok (record { string = b });
  device_id_from_bytes = λ b. some b;
}
