-- ===== src/Pair/Builder.antt =====
-- The configuration of a pair connection and its builder (lib/pairconnect/pair_conn.go, and
-- buildConnectionConfig of lib/pairconnect/conn_builder.go). The builder's methods change the one
-- configuration that it points to; here each returns the new one. A certificate is the DER bytes
-- of its first entry, the only part that the program reads.
use pipie.Prelude.{Bool, true, false, Option, none, some, [], Bytes, text, Outcome, ok, err}
use pipie.Platform.{Url}

pub record BuildConnectionConfig : Type 0 where
  pub pair_id : Bytes
  pub key : Bytes
  pub server_address : Bytes
  pub udp_connection : Bool
  pub relay_pool : Option Url
  pub force_relay : Bool
  pub peer_device_id : Option Bytes
  pub cert : Option Bytes

pub record PairConnectionConfig : Type 0 where
  pub conn_builder : BuildConnectionConfig
  pub polarity : Bool

unfoldable pub new_pair_conn_config_builder : PairConnectionConfig
new_pair_conn_config_builder = record {
  conn_builder = record {
    pair_id = [];
    key = [];
    server_address = text "pipie.mingc.net:7890";
    udp_connection = true;
    relay_pool = none;
    force_relay = false;
    peer_device_id = none;
    cert = none;
  };
  polarity = false;
}

-- `connBuilder.f = v`
set_builder : PairConnectionConfig → BuildConnectionConfig → PairConnectionConfig
set_builder c b = record c { conn_builder = b }

unfoldable pub set_pair_id_and_key : PairConnectionConfig → Bytes → Bytes → PairConnectionConfig
unfolding set_builder
set_pair_id_and_key c pair_id access_key =
    set_builder c (record c.conn_builder { pair_id = pair_id; key = access_key })

unfoldable pub set_rendezvous_server : PairConnectionConfig → Bytes → PairConnectionConfig
unfolding set_builder
set_rendezvous_server c server = set_builder c (record c.conn_builder { server_address = server })

unfoldable pub set_tls : PairConnectionConfig → Option Bytes → PairConnectionConfig
unfolding set_builder
set_tls c cert = set_builder c (record c.conn_builder { cert = cert })

unfoldable pub set_relay_perm : PairConnectionConfig → Option Url → PairConnectionConfig
unfolding set_builder
set_relay_perm c pool = set_builder c (record c.conn_builder { relay_pool = pool })

unfoldable pub set_relay_temp :
    PairConnectionConfig → Option Url → Option Bytes → PairConnectionConfig
unfolding set_builder
set_relay_temp c pool peer_device_id =
    set_builder c (record c.conn_builder { relay_pool = pool; peer_device_id = peer_device_id })

unfoldable pub set_force_relay : PairConnectionConfig → PairConnectionConfig
unfolding set_builder
set_force_relay c = set_builder c (record c.conn_builder { force_relay = true })

abbrev is_nil : Option Bytes → Bool
is_nil none = true
is_nil (some _) = false

abbrev require_cert : Option Bytes → PairConnectionConfig → Outcome PairConnectionConfig
require_cert none c = err (text "certificate not specified")
require_cert (some _) c = ok c

-- The side that was given no device id of its peer is the permanent one, the server.
unfoldable pub build : PairConnectionConfig → Outcome PairConnectionConfig
build c =
    require_cert c.conn_builder.cert (record c { polarity = is_nil c.conn_builder.peer_device_id })
