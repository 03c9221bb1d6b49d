-- ===== src/Io/Identity.antt =====
-- The exchange of mode strings that opens every stream of lib/io (port_forward_client.go,
-- port_forward_server.go, pipe_inlet.go, pipe_outlet.go), and the constants of util.go.
use pipie.Prelude.{
  ℕ, Bool, true, false, ◌≡◌, ◌↔◌, refl, not, ◌||◌, ◌==◌, Option, none, some, replicate, Bytes, text,
  bytes_equal, copy, Outcome, ok, err, if◌then◌else◌,
}

abbrev pub mode_string_len : ℕ
mode_string_len = 14

-- The two ends of each service.
pub data Mode : Type 0 where
  port_forward_server port_forward_client pipe_inlet pipe_outlet : Mode

unfoldable pub mode_string : Mode → Bytes
mode_string port_forward_server = text "MODE_PORT_SERV"
mode_string port_forward_client = text "MODE_PORT_CLIE"
mode_string pipe_inlet = text "MODE_PIPE_INLE"
mode_string pipe_outlet = text "MODE_PIPE_OUTL"

-- The mode whose string an end expects of its peer.
unfoldable pub peer_mode : Mode → Mode
peer_mode port_forward_server = port_forward_client
peer_mode port_forward_client = port_forward_server
peer_mode pipe_inlet = pipe_outlet
peer_mode pipe_outlet = pipe_inlet

abbrev is_nil : Option Bytes → Bool
is_nil none = true
is_nil (some e) = false

-- `n` and `err` of the Write, and the bytes and `err` of the one Read into 14 zero bytes.
unfoldable pub confirm_identity :
    Mode → ℕ → Option Bytes → Bytes → Option Bytes → Outcome (Unit {0})
unfolding mode_string peer_mode bytes_equal copy
confirm_identity mode n write_err read read_err =
    if not (is_nil write_err) || not (n == mode_string_len)
    then err (text "unable to send identity")
    else if not (is_nil read_err)
        || not
            (bytes_equal (copy (replicate mode_string_len 0) read) (mode_string (peer_mode mode)))
    then err (text "unable to confirm peer identity")
    else ok tt

-- An end that sent its string whole and reads, without error, the string that a peer of mode
-- `other` sends, accepts exactly the mode that belongs to its own.
confirm_identity_iff :
    (mode other : Mode)
    → (confirm_identity mode 14 none (mode_string other) none ≡ ok tt) ↔ (other ≡ peer_mode mode)
unfolding confirm_identity
confirm_identity_iff port_forward_server port_forward_server = (λ e. cc, λ e. cc)
confirm_identity_iff port_forward_server port_forward_client = (λ e. refl, λ e. refl)
confirm_identity_iff port_forward_server pipe_inlet = (λ e. cc, λ e. cc)
confirm_identity_iff port_forward_server pipe_outlet = (λ e. cc, λ e. cc)
confirm_identity_iff port_forward_client port_forward_server = (λ e. refl, λ e. refl)
confirm_identity_iff port_forward_client port_forward_client = (λ e. cc, λ e. cc)
confirm_identity_iff port_forward_client pipe_inlet = (λ e. cc, λ e. cc)
confirm_identity_iff port_forward_client pipe_outlet = (λ e. cc, λ e. cc)
confirm_identity_iff pipe_inlet pipe_outlet = (λ e. refl, λ e. refl)
confirm_identity_iff pipe_inlet port_forward_server = (λ e. cc, λ e. cc)
confirm_identity_iff pipe_inlet port_forward_client = (λ e. cc, λ e. cc)
confirm_identity_iff pipe_inlet pipe_inlet = (λ e. cc, λ e. cc)
confirm_identity_iff pipe_outlet pipe_inlet = (λ e. refl, λ e. refl)
confirm_identity_iff pipe_outlet port_forward_server = (λ e. cc, λ e. cc)
confirm_identity_iff pipe_outlet port_forward_client = (λ e. cc, λ e. cc)
confirm_identity_iff pipe_outlet pipe_outlet = (λ e. cc, λ e. cc)
