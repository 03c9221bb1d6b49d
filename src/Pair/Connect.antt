-- ===== src/Pair/Connect.antt =====
-- connectTo and ConnectToWithMux of lib/pairconnect/pair_conn.go. What the network calls return is
-- given by an `Answers` record; connections themselves are only what they run over.
use pipie.Prelude.{
  Bool, true, false, Option, none, some, Bytes, text, Outcome, ok, err, panic, if◌then◌else◌,
}
use pipie.Pair.Builder.{PairConnectionConfig}

-- buildConnectionUDP: an error, or a packet connection with the polarity of its pairInfoMeta.
pub data Udp : Type 0 where
  udp_failed : Bytes → Udp
  udp_connected : Bool → Udp

-- buildConnectionTCP; with a false status it returns neither a connection nor an error.
pub data Tcp : Type 0 where
  tcp_failed : Bytes → Tcp
  tcp_nothing : Tcp
  tcp_connected : Bool → Tcp

-- The answers of the calls, each read only if its call is made. A call that can only fail has
-- `none` for success; `invitation` is whether one came in time.
pub record Answers : Type 0 where
  pub udp : Udp
  pub stabilify : Option Bytes
  pub tcp : Tcp
  pub new_client : Option Bytes
  pub client_error : Option Bytes
  pub invitation : Bool
  pub get_invitation : Option Bytes
  pub join_session : Option Bytes
  pub handshake : Option Bytes
  pub identity : Outcome (Unit {0})
  pub mux : Option Bytes

pub data Transport : Type 0 where
  direct relayed_permanent relayed_temporary : Transport

pub data TlsRole : Type 0 where
  tls_server tls_client : TlsRole

-- The transport and the polarity of `connectionMeta`, if that is not nil.
pub record Carrier : Type 0 where
  pub transport : Transport
  pub meta : Option Bool

pub record Secured : Type 0 where
  pub carrier : Carrier
  pub role : TlsRole

unfoldable pub join : Option Bytes → Transport → Outcome Carrier
join none t = ok (record { transport = t; meta = none })
join (some e) t = err e

abbrev permanent : Option Bytes → Option Bytes → Bool → Option Bytes → Outcome Carrier
permanent (some e) client_error invited joined = err e
permanent none (some e) invited joined = err e
permanent none none false joined = err (text "timeout")
permanent none none true joined = join joined relayed_permanent

abbrev temporary : Option Bytes → Option Bytes → Outcome Carrier
temporary (some e) joined = err e
temporary none joined = join joined relayed_temporary

-- The part behind the label RelaySkip, where there is no connection yet.
unfoldable pub relay : PairConnectionConfig → Answers → Outcome Carrier
unfolding join
relay config a = elim config.conn_builder.relay_pool [
  | none ↦ err (text "relay not configured")
  | some pool ↦
      if config.polarity
      then permanent a.new_client a.client_error a.invitation a.join_session
      else temporary a.get_invitation a.join_session
]

-- `goto RelaySkip` if a relay is there, the error if not.
unfoldable pub relay_or : Bytes → PairConnectionConfig → Answers → Outcome Carrier
unfolding relay
relay_or e config a = elim config.conn_builder.relay_pool [
  | none ↦ err e
  | some pool ↦ relay config a
]

abbrev stabilified : Option Bytes → Bool → Outcome Carrier
stabilified none meta = ok (record { transport = direct; meta = some meta })
stabilified (some e) meta = err e

unfoldable pub direct_or_relay : PairConnectionConfig → Answers → Outcome Carrier
unfolding relay_or relay
direct_or_relay config a =
    if config.conn_builder.udp_connection
    then elim a.udp [
      | udp_failed e ↦ relay_or e config a
      | udp_connected meta ↦ stabilified a.stabilify meta
    ]
    else elim a.tcp [
      | tcp_failed e ↦ relay_or e config a
      | tcp_nothing ↦ relay config a
      | tcp_connected meta ↦ ok (record { transport = direct; meta = some meta })
    ]

unfoldable pub carrier : PairConnectionConfig → Answers → Outcome Carrier
unfolding direct_or_relay relay
carrier config a =
    if config.conn_builder.force_relay then relay config a else direct_or_relay config a

-- The rendezvous server's polarity decides, and without one the configuration's.
unfoldable pub tls_role : Option Bool → Bool → TlsRole
tls_role (some meta) polarity = if meta then tls_server else tls_client
tls_role none polarity = if polarity then tls_server else tls_client

abbrev secure : Option Bytes → Outcome (Unit {0}) → Secured → Outcome Secured
secure (some e) identity s = err e
secure none (ok t) s = ok s
secure none (err e) s = err e
secure none (panic e) s = panic e

unfoldable pub connect_to : PairConnectionConfig → Answers → Outcome Secured
unfolding tls_role
connect_to config a = elim (carrier config a) [
  | ok c ↦
      secure a.handshake a.identity (record { carrier = c; role = tls_role c.meta config.polarity })
  | err e ↦ err e
  | panic e ↦ panic e
]

pub data MuxRole : Type 0 where
  yamux_client yamux_server : MuxRole

abbrev muxed : Option Bytes → MuxRole → Secured → Outcome (Secured × MuxRole)
muxed none r s = ok (s, r)
muxed (some e) r s = err e

unfoldable pub connect_to_with_mux : PairConnectionConfig → Answers → Outcome (Secured × MuxRole)
connect_to_with_mux config a = elim (connect_to config a) [
  | ok s ↦ muxed a.mux (if config.polarity then yamux_client else yamux_server) s
  | err e ↦ err e
  | panic e ↦ panic e
]
