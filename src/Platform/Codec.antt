-- ===== src/Platform/Codec.antt =====
-- A codec of a toy kind that reads what it writes, and a platform with it that keeps the laws of an
-- exchange.
use pipie.Prelude.{
  ℕ, zero, suc, ◌≡◌, refl, ap, sym, ◌∙◌, Option, none, some, [], ◌∷◌, ◌++◌, take, drop, length,
  replicate, take-append_length, drop-append_length, length-take, length-append, length-replicate,
  append_assoc, Bytes, arith, ok,
}
use pipie.Platform.{Platform}
use pipie.Exchange.{
  ExchangeBody, ExchangeFrame, Intention, ResponsePayload, ConfirmPayload, challenge_request,
  challenge, challenge_response, confirm, pipe_out, port_forward_to, port_forward_from,
}
use pipie.Platform.Fields.{
  field, read_field, taken, dropped, option_field, read_option, read_option-field, number_field,
  read_number, read_number-field, flag_field, read_flag, read_flag-field,
}
use pipie.Handshake.Laws.{PlatformLaws}

abbrev write_confirm : ConfirmPayload → Bytes
write_confirm r = flag_field r.result (
    option_field r.message
      (option_field r.signature (option_field r.relay (option_field r.pair_id []))))

abbrev read_confirm : Bytes → ConfirmPayload
read_confirm b =
    let (result, b1) = read_flag b in
    let (message, b2) = read_option b1 in
    let (signature, b3) = read_option b2 in
    let (relay, b4) = read_option b3 in
    let (pair_id, b5) = read_option b4 in
    record {
      result = result;
      message = message;
      signature = signature;
      relay = relay;
      pair_id = pair_id;
    }

read_confirm-write : (r : ConfirmPayload) → read_confirm (write_confirm r) ≡ r
read_confirm-write r =
    rw
      (
        read_flag-field r.result (
            option_field r.message
              (option_field r.signature (option_field r.relay (option_field r.pair_id [])))),
        read_option-field r.message
            (option_field r.signature (option_field r.relay (option_field r.pair_id []))),
        read_option-field r.signature (option_field r.relay (option_field r.pair_id [])),
        read_option-field r.relay (option_field r.pair_id []),
        read_option-field r.pair_id [],
      )
      refl

abbrev write_intention : Option Intention → Bytes
write_intention none = 0 ∷ []
write_intention (some pipe_out) = 1 ∷ []
write_intention (some (port_forward_to host port)) = 2 ∷ option_field host (number_field port [])
write_intention (some (port_forward_from host port)) = 3 ∷ option_field host (number_field port [])

abbrev read_address : Bytes → Option Bytes × Option ℕ
read_address b = let (host, b1) = read_option b in (host, (read_number b1).0)

abbrev read_intention : Bytes → Option Intention
read_intention [] = none
read_intention (zero ∷ rest) = none
read_intention (suc zero ∷ rest) = some pipe_out
read_intention (suc (suc zero) ∷ rest) =
    let (host, port) = read_address rest in some (port_forward_to host port)
read_intention (suc (suc (suc n)) ∷ rest) =
    let (host, port) = read_address rest in some (port_forward_from host port)

read_address-field :
    (host : Option Bytes) (port : Option ℕ)
    → read_address (option_field host (number_field port [])) ≡ (host, port)
read_address-field host port =
    rw (read_option-field host (number_field port []), read_number-field port []) refl

read_intention-write : (i : Option Intention) → read_intention (write_intention i) ≡ i
read_intention-write none = refl
read_intention-write (some pipe_out) = refl
read_intention-write (some (port_forward_to host port)) =
    ap (λ a. some (port_forward_to a.0 a.1)) (read_address-field host port)
read_intention-write (some (port_forward_from host port)) =
    ap (λ a. some (port_forward_from a.0 a.1)) (read_address-field host port)

abbrev write_response : ResponsePayload → Bytes
write_response r = field r.pair_key (flag_field r.force_relay (write_intention r.intention))

abbrev read_response : Bytes → ResponsePayload
read_response b =
    let (pair_key, b1) = read_field b in
    let (force_relay, b2) = read_flag b1 in
    record { pair_key = pair_key; force_relay = force_relay; intention = read_intention b2 }

read_response-write : (r : ResponsePayload) → read_response (write_response r) ≡ r
read_response-write r =
    let rest = flag_field r.force_relay (write_intention r.intention) in
    rw
      (
        taken r.pair_key rest,
        dropped r.pair_key rest,
        read_flag-field r.force_relay (write_intention r.intention),
        read_intention-write r.intention,
      )
      refl

-- A message in front of the rest.
abbrev write_body : Option ExchangeBody → Bytes → Bytes
write_body none rest = 0 ∷ rest
write_body (some challenge_request) rest = 1 ∷ rest
write_body (some (challenge token payload)) rest = 2 ∷ field token (field payload rest)
write_body (some (challenge_response token nonce payload)) rest =
    3 ∷ field token (field nonce (field payload rest))
write_body (some (confirm token nonce payload)) rest =
    4 ∷ field token (field nonce (field payload rest))

abbrev read_three : Bytes → Bytes × Bytes × Bytes
read_three b =
    let (token, b1) = read_field b in
    let (nonce, b2) = read_field b1 in (token, nonce, (read_field b2).0)

abbrev read_body : Bytes → Option ExchangeBody
read_body [] = none
read_body (zero ∷ rest) = none
read_body (suc zero ∷ rest) = some challenge_request
read_body (suc (suc zero) ∷ rest) =
    let (token, b1) = read_field rest in some (challenge token (read_field b1).0)
read_body (suc (suc (suc zero)) ∷ rest) =
    let (token, nonce, payload) = read_three rest in some (challenge_response token nonce payload)
read_body (suc (suc (suc (suc n))) ∷ rest) =
    let (token, nonce, payload) = read_three rest in some (confirm token nonce payload)

read_three-field :
    (token nonce payload rest : Bytes)
    → read_three (field token (field nonce (field payload rest))) ≡ (token, nonce, payload)
read_three-field token nonce payload rest =
    rw
      (
        taken token (field nonce (field payload rest)),
        dropped token (field nonce (field payload rest)),
        taken nonce (field payload rest),
        dropped nonce (field payload rest),
        taken payload rest,
      )
      refl

read_body-write : (o : Option ExchangeBody) (rest : Bytes) → read_body (write_body o rest) ≡ o
read_body-write none rest = refl
read_body-write (some challenge_request) rest = refl
read_body-write (some (challenge token payload)) rest =
    rw (taken token (field payload rest), dropped token (field payload rest), taken payload rest)
      refl
read_body-write (some (challenge_response token nonce payload)) rest =
    ap (λ t. some (challenge_response t.0 t.1 t.2)) (read_three-field token nonce payload rest)
read_body-write (some (confirm token nonce payload)) rest =
    ap (λ t. some (confirm t.0 t.1 t.2)) (read_three-field token nonce payload rest)

write_body-append :
    (o : Option ExchangeBody) (rest : Bytes) → write_body o [] ++ rest ≡ write_body o rest
write_body-append none rest = refl
write_body-append (some challenge_request) rest = refl
write_body-append (some (challenge token payload)) rest = simp append_assoc
write_body-append (some (challenge_response token nonce payload)) rest = simp append_assoc
write_body-append (some (confirm token nonce payload)) rest = simp append_assoc

abbrev frame_of : Option ExchangeBody → ExchangeFrame
frame_of o = record { exchange_body = o }

abbrev pub codec : Platform
codec = record {
  sha256 = λ b. take 32 (b ++ replicate 32 0);
  sha512 = λ b. replicate 64 (length b);
  gcm_seal = λ nonce key plain. plain;
  gcm_open = λ nonce key sealed. some sealed;
  unpack_frame =
      λ b. ok (record { version = 1; source = take 32 (drop 1 b); destination = drop 33 b });
  marshal_exchange = λ frame. ok (write_body frame.exchange_body []);
  unmarshal_exchange = λ b. (record { exchange_body = read_body b }, none);
  marshal_response = λ response. ok (write_response response);
  unmarshal_response = λ b. (read_response b, none);
  marshal_confirm = λ payload. ok (write_confirm payload);
  unmarshal_confirm = λ b. (read_confirm b, none);
  parse_url = λ b. ok (record { string = b });
  device_id_from_bytes = λ b. some b;
}

ok_injective : (a b : Bytes) → ok a ≡ ok b → a ≡ b
ok_injective a b e = cc

pub codec-PlatformLaws : PlatformLaws codec
codec-PlatformLaws = record {
  sum_size = λ b. omega (
    arith,
    length-take 32 (b ++ replicate 32 0),
    length-append b (replicate 32 0),
    length-replicate {A = ℕ} 32 0,
  );
  opens = λ nonce key plain. refl;
  unpacks = λ source dest hs hd.
      rw (take-append_length 32 source dest hs, drop-append_length 32 source dest hs) refl;
  exchange_read = λ f b e.
      ap (λ x. (frame_of (read_body x), none))
        (sym (ok_injective (write_body f.exchange_body []) b e))
      ∙ ap (λ o. (frame_of o, none)) (read_body-write f.exchange_body []);
  response_read = λ r b e.
      ap (λ x. (read_response x, none)) (sym (ok_injective (write_response r) b e))
      ∙ ap (λ x. (x, none)) (read_response-write r);
  confirm_read = λ r b e.
      ap (λ x. (read_confirm x, none)) (sym (ok_injective (write_confirm r) b e))
      ∙ ap (λ x. (x, none)) (read_confirm-write r);
  device_ids = λ b h. (b, refl);
  url_again = λ b u e. refl;
}
