-- ===== src/CommandLine.antt =====
-- What `pipie` makes of its arguments: TestMain of cmd/pipie/main.go. Reading the flags is argparse's
-- part and the certificate is a file; the validators, the forward addresses and the call that the
-- arguments lead to are here.
pub mod Numbers
pub mod Split
pub mod Decimal
pub mod Addresses
pub mod Directions
pub mod Certificate
mod Examples
use pipie.Prelude.{
  ℕ, Bool, true, false, not, ◌&&◌, ◌==◌, Option, none, some, List, [], ◌∷◌, Bytes, text, ltb,
  length, bytes_equal, Outcome, ok, err, panic, if◌then◌else◌, ◌++◌,
}
use pipie.Platform.{Platform}
use pipie.Permission.{
  Checker, new_register, allow_pipe_out, allow_port_forward_in, allow_port_forward_out,
  build_checker,
}
use pipie.Daemon.Loop.{DaemonServiceConfig}
use pipie.Client.Tasks.{Task, pipe_client, port_forward_to_client, port_forward_from_client}
use pipie.CommandLine.Numbers.{parse_int, uint16_int}

-- ModePipe and ModePortForward of internal/pipie/configuration.go.
abbrev pub mode_pipe : Bytes
mode_pipe = text "pipe"

abbrev pub mode_port_forward : Bytes
mode_port_forward = text "port_forward"

-- The byte in front of the first part.
abbrev pub add_byte : ℕ → List Bytes → List Bytes
add_byte c [] = (c ∷ []) ∷ []
add_byte c (part ∷ parts) = (c ∷ part) ∷ parts

-- strings.Split by one byte: the parts between its occurrences, at least one.
unfoldable pub split : ℕ → Bytes → List Bytes
split sep [] = [] ∷ []
split sep (c ∷ s) = let parts = split sep s in if c == sep then [] ∷ parts else add_byte c parts

-- The Validate functions; `none` is their nil error.
unfoldable pub validate_mode : List Bytes → Option Bytes
validate_mode [] = some (text "no mode specified")
validate_mode (mode ∷ rest) =
    if bytes_equal mode mode_pipe
    then none
    else if bytes_equal mode mode_port_forward
    then none
    else some (text "mode " ++ (mode ++ text " cannot be recognized"))

unfoldable pub validate_forward_addresses : List Bytes → Option Bytes
unfolding split
validate_forward_addresses [] = some (text "no forward addresses specified")
validate_forward_addresses (address ∷ rest) =
    if length (split b':' address) == 4
    then none
    else some (text "no enough forward addresses given")

unfoldable pub validate_name : List Bytes → Option Bytes
validate_name [] = some (text "no username specified")
validate_name (name ∷ rest) =
    if ltb (length name) 6 then some (text "username is too short") else none

unfoldable pub validate_access_key : List Bytes → Option Bytes
validate_access_key [] = some (text "no accesskey specified")
validate_access_key (key ∷ rest) = none

-- What argparse leaves in the variables of the options; an option that was not given is empty, or
-- its default.
pub record Arguments : Type 0 where
  pub mode : Bytes
  pub reverse_forward : Bool
  pub forward_addresses : Bytes
  pub as_server : Bool
  pub force_relay : Bool
  pub user_name : Bytes
  pub access_key : Bytes
  pub signal_server : Bytes
  pub rendezvous_server : Bytes

pub record ForwardAddresses : Type 0 where
  pub bind_host : Bytes
  pub bind_port : ℕ
  pub dest_host : Bytes
  pub dest_port : ℕ

-- A number that does not parse is reported, and what ParseInt returned is used all the same.
unfoldable pub port_of : Bytes → ℕ
unfolding parse_int uint16_int
port_of s = uint16_int (parse_int s).value

unfoldable pub cut_addresses : List Bytes → Outcome ForwardAddresses
unfolding port_of
cut_addresses (bind_host ∷ bind_port ∷ dest_host ∷ dest_port ∷ rest) = ok (record {
  bind_host = bind_host;
  bind_port = port_of bind_port;
  dest_host = dest_host;
  dest_port = port_of dest_port;
})
cut_addresses _ = panic (text "index out of range")

-- Only a client that forwards a port looks at the addresses.
unfoldable pub read_addresses : Arguments → Outcome ForwardAddresses
unfolding cut_addresses split
read_addresses a =
    if bytes_equal a.mode mode_port_forward && not a.as_server
    then cut_addresses (split b':' a.forward_addresses)
    else ok (record { bind_host = []; bind_port = 0; dest_host = []; dest_port = 0 })

-- The permission of a server.
unfoldable pub server_permission : Bool → Checker
unfolding new_register allow_pipe_out allow_port_forward_in allow_port_forward_out build_checker
server_permission reverse_forward =
    let r = allow_pipe_out new_register in
    build_checker
      (if not reverse_forward then allow_port_forward_in r [] 0 else allow_port_forward_out r [] 0)

-- What a client is asked to do; another mode is fatal.
unfoldable pub client_task : Arguments → ForwardAddresses → Outcome Task
client_task a f =
    if bytes_equal a.mode mode_pipe
    then ok pipe_client
    else if bytes_equal a.mode mode_port_forward
    then ok (
        if a.reverse_forward
        then port_forward_from_client f.bind_host f.bind_port f.dest_host f.dest_port
        else port_forward_to_client f.bind_host f.bind_port f.dest_host f.dest_port)
    else err (text "Mode not supported")

-- Which call ends TestMain: DaemonLoop, or one of the three clients.
pub data Command : Type 0 where
  daemon_command : Checker → Command
  client_command : Task → Command

abbrev pub client_call : Outcome Task → Outcome Command
client_call (ok task) = ok (client_command task)
client_call (err e) = err e
client_call (panic e) = panic e

unfoldable pub call : Arguments → Outcome ForwardAddresses → Outcome Command
unfolding server_permission client_task
call a (ok f) =
    if a.as_server
    then ok (daemon_command (server_permission a.reverse_forward))
    else client_call (client_task a f)
call a (err e) = err e
call a (panic e) = panic e

unfoldable pub command : Arguments → Outcome Command
unfolding read_addresses call
command a = call a (read_addresses a)

-- The configuration that goes with the call; `cert` is the first certificate of the loaded pair.
unfoldable pub service_settings : Platform → Bytes → Arguments → DaemonServiceConfig
service_settings p cert a = record {
  rendezvous_server = a.rendezvous_server;
  cert = cert;
  cert_hash = p.sha256 cert;
  force_relay = a.force_relay;
}

-- What the call is given.
pub record Call : Type 0 where
  pub settings : DaemonServiceConfig
  pub server : Bytes
  pub username : Bytes
  pub key : Bytes
  pub what : Command

abbrev pub call_with : DaemonServiceConfig → Arguments → Outcome Command → Outcome Call
call_with config a (ok c) = ok (record {
  settings = config;
  server = a.signal_server;
  username = a.user_name;
  key = a.access_key;
  what = c;
})
call_with config a (err e) = err e
call_with config a (panic e) = panic e

-- TestMain from the parsed arguments and the loaded certificate to the call.
unfoldable pub test_main : Platform → Bytes → Arguments → Outcome Call
unfolding command service_settings
test_main p cert a = call_with (service_settings p cert a) a (command a)
