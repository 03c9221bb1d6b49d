-- ===== src/Services/Examples.antt =====
-- An instance of the theorem on the services.
use pipie.Prelude.{true, false, none, some, [], text, ok}
use pipie.Pair.Builder.{PairConnectionConfig}
use pipie.Pair.Connect.{Answers, udp_connected, tcp_nothing}
use pipie.Io.Identity.{mode_string, port_forward_client}
use pipie.Io.Forward.Signal.{signal_of, signal_hand_shake}
use pipie.Io.Session.{ForwardAnswers, SessionWorld}

abbrev config : PairConnectionConfig
config = record {
  conn_builder = record {
    pair_id = text "id";
    key = text "key";
    server_address = text "server";
    udp_connection = true;
    relay_pool = none;
    force_relay = false;
    peer_device_id = none;
    cert = some (text "cert");
  };
  polarity = true;
}

abbrev directly : Answers
directly = record {
  udp = udp_connected true;
  stabilify = none;
  tcp = tcp_nothing;
  new_client = none;
  client_error = none;
  invitation = false;
  get_invitation = none;
  join_session = none;
  handshake = none;
  identity = ok tt;
  mux = none;
}

abbrev answers : ForwardAnswers
answers = record {
  stream = record {
    opened = none;
    written = 14;
    write_err = none;
    read = mode_string port_forward_client;
    read_err = none;
  };
  send_err = none;
  peer_signal = ok (signal_of signal_hand_shake);
  listen_err = none;
  left_at_send = true;
}

abbrev idle : SessionWorld
idle = record {
  sessions = 0;
  streams = 0;
  listeners = 0;
  signals = [];
  output = [];
  started = false;
  left = false;
}
