-- ===== src/CommandLine/Addresses.antt =====
-- What TestMain of cmd/pipie/main.go makes of the forward addresses.
use pipie.Prelude.{
  ℕ, ◌<◌, ◌^◌, ◌≡◌, refl, sym, ◌↔◌, false, none, List, [], ◌∷◌, ◌++◌, Bytes, length, All,
  bytes_equal_iff, bytes_equal, arith, Outcome, ok, err, panic, inl, inr, Bool-cases,
}
use pipie.CommandLine.{
  Arguments, ForwardAddresses, mode_port_forward, mode_pipe, split, port_of, cut_addresses,
  read_addresses, validate_forward_addresses, command, client_task, client_call, call,
}
use pipie.CommandLine.Numbers.{ℤ, pos, negsuc, uint16_int, parse_int}
use pipie.CommandLine.Split.{Free, join, split-Free, split-append, split-Parted, Parted}
use pipie.CommandLine.Decimal.{IsDigit, decimal, port_of-decimal, decimal-digits}

digits-Free : (s : Bytes) → All IsDigit s → Free b':' s
digits-Free [] d = tt
digits-Free (c ∷ s) d = (ground arith, digits-Free s d.1)

-- The text of forward addresses.
abbrev pub addresses_text : Bytes → ℕ → Bytes → ℕ → Bytes
addresses_text bind_host bind_port dest_host dest_port =
    bind_host ++ (b':' ∷ (decimal bind_port ++ (b':' ∷ (dest_host ++ (b':' ∷ decimal dest_port)))))

split_text :
    (w : Bytes) (m : ℕ) (y : Bytes) (n : ℕ)
    → Free b':' w
    → Free b':' y
    → split b':' (addresses_text w m y n) ≡ w ∷ (decimal m ∷ (y ∷ (decimal n ∷ [])))
split_text w m y n fw fy = rw (
  split-append b':' w (decimal m ++ (b':' ∷ (y ++ (b':' ∷ decimal n)))) fw,
  split-append b':' (decimal m) (y ++ (b':' ∷ decimal n))
      (digits-Free (decimal m) (decimal-digits m)),
  split-append b':' y (decimal n) fy,
  split-Free b':' (decimal n) (digits-Free (decimal n) (decimal-digits n)),
)

-- Forward addresses that are written with hosts without a colon and with ports below 2^16 are
-- accepted by the validator, and are read back as those hosts and ports.
pub cut_addresses-text :
    (bind_host : Bytes) (bind_port : ℕ) (dest_host : Bytes) (dest_port : ℕ)
    → Free b':' bind_host
    → Free b':' dest_host
    → bind_port < 2 ^ 16
    → dest_port < 2 ^ 16
    → let address = addresses_text bind_host bind_port dest_host dest_port in
      (validate_forward_addresses (address ∷ []) ≡ none)
      × (cut_addresses (split b':' address)
          ≡ ok (record {
            bind_host = bind_host;
            bind_port = bind_port;
            dest_host = dest_host;
            dest_port = dest_port;
          }))
unfolding validate_forward_addresses cut_addresses
cut_addresses-text w m y n fw fy hm hn =
    rw (split_text w m y n fw fy, port_of-decimal m hm, port_of-decimal n hn) (refl, refl)

uint16_int-bound : (n : ℤ) → uint16_int n < 2 ^ 16
unfolding uint16_int
uint16_int-bound (pos n) = omega arith
uint16_int-bound (negsuc n) = omega arith

port_of-bound : (s : Bytes) → port_of s < 2 ^ 16
unfolding port_of
port_of-bound s = uint16_int-bound (parse_int s).value

-- The addresses that were read are the four parts of the text.
pub record Exact (address : Bytes) (read : Outcome ForwardAddresses) : Type 0 where
  pub f : ForwardAddresses
  pub bind_port_text : Bytes
  pub dest_port_text : Bytes
  pub is_read : read ≡ ok f
  pub whole :
      address
      ≡ f.bind_host
        ++ (b':' ∷ (bind_port_text ++ (b':' ∷ (f.dest_host ++ (b':' ∷ dest_port_text)))))
  pub bind_host_free : Free b':' f.bind_host
  pub dest_host_free : Free b':' f.dest_host
  pub bind_port : f.bind_port ≡ port_of bind_port_text
  pub dest_port : f.dest_port ≡ port_of dest_port_text
  pub bind_port_bound : f.bind_port < 2 ^ 16
  pub dest_port_bound : f.dest_port < 2 ^ 16

four_parts-Exact :
    (address : Bytes) (parts : List Bytes)
    → length parts ≡ 4
    → Parted b':' address parts
    → Exact address (cut_addresses parts)
unfolding cut_addresses join
four_parts-Exact address [] e v = absurd (omega arith)
four_parts-Exact address (w ∷ []) e v = absurd (omega arith)
four_parts-Exact address (w ∷ (x ∷ [])) e v = absurd (omega arith)
four_parts-Exact address (w ∷ (x ∷ (y ∷ []))) e v = absurd (omega arith)
four_parts-Exact address (w ∷ (x ∷ (y ∷ (z ∷ (t ∷ ts))))) e v = absurd (omega arith)
four_parts-Exact address (w ∷ (x ∷ (y ∷ (z ∷ [])))) e v = record {
  f = record { bind_host = w; bind_port = port_of x; dest_host = y; dest_port = port_of z };
  bind_port_text = x;
  dest_port_text = z;
  is_read = refl;
  whole = sym v.joined;
  bind_host_free = v.free.0;
  dest_host_free = v.free.1.1.0;
  bind_port = refl;
  dest_port = refl;
  bind_port_bound = port_of-bound x;
  dest_port_bound = port_of-bound z;
}

accepted-length :
    (address : Bytes)
    → validate_forward_addresses (address ∷ []) ≡ none
    → length (split b':' address) ≡ 4
unfolding validate_forward_addresses
accepted-length address e = ground arith

-- The address that the validator accepts, of a client that forwards a port, is read without a panic:
-- it is the bind host, a bind port, the destination host and a destination port with colons between
-- them, the hosts hold no colon, and the ports are below 2^16.
pub read_addresses-Exact :
    (a : Arguments)
    → a.mode ≡ mode_port_forward
    → a.as_server ≡ false
    → validate_forward_addresses (a.forward_addresses ∷ []) ≡ none
    → Exact a.forward_addresses (read_addresses a)
unfolding read_addresses
read_addresses-Exact a is_mode is_client accepted =
    let s = a.forward_addresses in
    rw ((bytes_equal_iff a.mode mode_port_forward).1 is_mode, is_client)
      (four_parts-Exact s (split b':' s) (accepted-length s accepted) (split-Parted b':' s))

abbrev pub IsPanic {ℓ} : {A : Type ℓ} → Outcome A → Type 0
IsPanic (ok a) = ⊥
IsPanic (err e) = ⊥
IsPanic (panic e) = Unit

cut_addresses-IsPanic : (parts : List Bytes) → IsPanic (cut_addresses parts) ↔ (length parts < 4)
unfolding cut_addresses
cut_addresses-IsPanic [] = (λ p. omega arith, λ h. tt)
cut_addresses-IsPanic (w ∷ []) = (λ p. omega arith, λ h. tt)
cut_addresses-IsPanic (w ∷ (x ∷ [])) = (λ p. omega arith, λ h. tt)
cut_addresses-IsPanic (w ∷ (x ∷ (y ∷ []))) = (λ p. omega arith, λ h. tt)
cut_addresses-IsPanic (w ∷ (x ∷ (y ∷ (z ∷ ts)))) = (λ p. absurd p, λ h. absurd (omega arith))

client_task-IsPanic :
    (a : Arguments) (f : ForwardAddresses) → ¬ IsPanic (client_call (client_task a f))
unfolding client_task
client_task-IsPanic a f = elim (Bool-cases (bytes_equal a.mode mode_pipe)) [
  | inl e ↦ rw e λ p. p
  | inr e ↦ elim (Bool-cases (bytes_equal a.mode mode_port_forward)) [
    | inl e' ↦ rw (e, e') λ p. p
    | inr e' ↦ rw (e, e') λ p. p
  ]
]

call-IsPanic : (a : Arguments) (r : Outcome ForwardAddresses) → IsPanic (call a r) ↔ IsPanic r
unfolding call
call-IsPanic a (ok f) = elim (Bool-cases a.as_server) [
  | inl e ↦ rw e (λ p. p, λ p. p)
  | inr e ↦ rw e (client_task-IsPanic a f, λ p. absurd p)
]
call-IsPanic a (err e) = (λ p. p, λ p. p)
call-IsPanic a (panic e) = (λ p. p, λ p. p)

read_addresses-IsPanic :
    (a : Arguments)
    → IsPanic (read_addresses a) ↔ (
        (a.mode ≡ mode_port_forward)
        × (a.as_server ≡ false)
        × (length (split b':' a.forward_addresses) < 4))
unfolding read_addresses
read_addresses-IsPanic a =
    let mode = bytes_equal_iff a.mode mode_port_forward in
    let cut = cut_addresses-IsPanic (split b':' a.forward_addresses) in
    elim (Bool-cases (bytes_equal a.mode mode_port_forward)) [
      | inl e ↦ elim (Bool-cases a.as_server) [
        | inl s ↦ rw (e, s) (λ p. absurd p, λ h. absurd (ground arith))
        | inr s ↦ rw (e, s) (λ p. (mode.0 e, refl, cut.0 p), λ h. cut.1 h.2)
      ]
      | inr e ↦ rw e (λ p. absurd p, λ h. absurd (ground arith))
    ]

-- The program panics on its arguments exactly if it is a client that forwards a port and the forward
-- addresses have fewer than four parts, as they have when the option is left out.
pub command-IsPanic :
    (a : Arguments)
    → IsPanic (command a) ↔ (
        (a.mode ≡ mode_port_forward)
        × (a.as_server ≡ false)
        × (length (split b':' a.forward_addresses) < 4))
unfolding command
command-IsPanic a = (
  λ p. (read_addresses-IsPanic a).0 ((call-IsPanic a (read_addresses a)).0 p),
  λ h. (call-IsPanic a (read_addresses a)).1 ((read_addresses-IsPanic a).1 h),
)
