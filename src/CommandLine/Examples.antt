-- ===== src/CommandLine/Examples.antt =====
-- Command lines, and the theorems at them.
use pipie.Prelude.{
  ◌≡◌, refl, ◌<◌, ◌↔◌, ◌⊎◌, Bool, true, false, none, some, [], ◌∷◌, ◌%◌, ◌-◌, ◌^◌, min, Bytes, text,
  length, arith, ok, bytes_equal,
}
use pipie.Client.Tasks.{port_forward_to_client, task_intention}
use pipie.CommandLine.{
  Arguments, daemon_command, client_command, mode_pipe, mode_port_forward, split, port_of,
  cut_addresses, read_addresses, validate_mode, validate_name, validate_access_key,
  validate_forward_addresses, client_task, call, test_main, service_settings, command,
  server_permission,
}
use pipie.Platform.Toy.{toy}
use pipie.CommandLine.Numbers.{parse_int, parse_uint, scan_digits, uint16_int}
use pipie.CommandLine.Decimal.{horner, port_of-horner}
use pipie.CommandLine.Addresses.{
  Exact, IsPanic, addresses_text, cut_addresses-text, read_addresses-Exact, command-IsPanic,
}
use pipie.CommandLine.Directions.{permits, command-permits}

abbrev given : Bytes → Bool → Bool → Bytes → Arguments
given mode reverse_forward as_server forward_addresses = record {
  mode = mode;
  reverse_forward = reverse_forward;
  forward_addresses = forward_addresses;
  as_server = as_server;
  force_relay = false;
  user_name = text "somebody";
  access_key = text "key";
  signal_server = text "pipie.mingc.net:4567";
  rendezvous_server = text "pipie.mingc.net:7890";
}

abbrev forwarding : Arguments
forwarding = given mode_port_forward false false (text "localhost:8080:10.0.0.7:22")

abbrev without_addresses : Arguments
without_addresses = given mode_port_forward false false []

abbrev serving : Arguments
serving = given mode_pipe false true []

forwarding-command :
    command forwarding
    ≡ ok (client_command (port_forward_to_client (text "localhost") 8080 (text "10.0.0.7") 22))
unfolding command call read_addresses client_task cut_addresses split port_of parse_int parse_uint
    scan_digits uint16_int bytes_equal
forwarding-command = refl

serving-command : command serving ≡ ok (daemon_command (server_permission false))
unfolding command call read_addresses bytes_equal
serving-command = refl

forwarding-test_main :
    test_main toy (text "cert") forwarding
    ≡ ok (record {
      settings = service_settings toy (text "cert") forwarding;
      server = text "pipie.mingc.net:4567";
      username = text "somebody";
      key = text "key";
      what = client_command (port_forward_to_client (text "localhost") 8080 (text "10.0.0.7") 22);
    })
unfolding test_main command call read_addresses client_task cut_addresses split port_of parse_int
    parse_uint scan_digits uint16_int bytes_equal
forwarding-test_main = refl

-- The ports wrap around, and what does not parse is 0.
ports :
    (port_of (text "70000") ≡ 4464)
    × (port_of (text "-1") ≡ 65535)
    × (port_of (text "99999999999") ≡ 65535)
    × (port_of (text "http") ≡ 0)
    × (port_of [] ≡ 0)
unfolding port_of parse_int parse_uint scan_digits uint16_int
ports = (refl, refl, refl, refl, refl)

validators :
    (validate_mode (text "pipes" ∷ []) ≡ some (text "mode pipes cannot be recognized"))
    × (validate_mode (mode_port_forward ∷ []) ≡ none)
    × (validate_name (text "me" ∷ []) ≡ some (text "username is too short"))
    × (validate_access_key ([] ∷ []) ≡ none)
    × (validate_forward_addresses (text "8080:22" ∷ [])
        ≡ some (text "no enough forward addresses given"))
unfolding validate_mode validate_name validate_access_key validate_forward_addresses split
    bytes_equal
validators = (refl, refl, refl, refl, refl)

port_of-horner_example :
    let n = horner 0 (text "70000") in
    (port_of (text "70000") ≡ min n (2 ^ 31 - 1) % 2 ^ 16)
    × (port_of (text "+70000") ≡ min n (2 ^ 31 - 1) % 2 ^ 16)
    × (port_of (text "-70000") ≡ (2 ^ 16 - min n (2 ^ 31) % 2 ^ 16) % 2 ^ 16)
port_of-horner_example =
    port_of-horner b'7' (text "0000") (refl, (refl, (refl, (refl, (refl, tt)))))

cut_addresses-text_example :
    let address = addresses_text (text "lo") 8080 (text "host") 22 in
    (validate_forward_addresses (address ∷ []) ≡ none)
    × (cut_addresses (split b':' address)
        ≡ ok (record {
          bind_host = text "lo";
          bind_port = 8080;
          dest_host = text "host";
          dest_port = 22;
        }))
cut_addresses-text_example =
    cut_addresses-text (text "lo") 8080 (text "host") 22 (refl, (refl, tt))
      (refl, (refl, (refl, (refl, tt)))) (omega arith) (omega arith)

forwarding-accepted : validate_forward_addresses (forwarding.forward_addresses ∷ []) ≡ none
unfolding validate_forward_addresses split
forwarding-accepted = refl

read_addresses-Exact_example : Exact forwarding.forward_addresses (read_addresses forwarding)
read_addresses-Exact_example = read_addresses-Exact forwarding refl refl forwarding-accepted

command-IsPanic_example : IsPanic (command without_addresses) ↔ (
    (without_addresses.mode ≡ mode_port_forward)
    × (without_addresses.as_server ≡ false)
    × (length (split b':' without_addresses.forward_addresses) < 4))
command-IsPanic_example = command-IsPanic without_addresses

command-permits_example :
    (permits
        (server_permission false)
        (task_intention (port_forward_to_client (text "localhost") 8080 (text "10.0.0.7") 22))
      ≡ true)
    ↔ ((forwarding.mode ≡ mode_pipe) ⊎ (serving.reverse_forward ≡ forwarding.reverse_forward))
command-permits_example =
    command-permits serving forwarding (server_permission false)
      (port_forward_to_client (text "localhost") 8080 (text "10.0.0.7") 22) serving-command
      forwarding-command
