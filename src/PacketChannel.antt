-- ===== src/PacketChannel.antt =====
-- internal/packetchan/packetchan.go: a packet connection behind two channels without a buffer. Two
-- goroutines serve them; their steps, the receives and sends of their clients and the calls of Close
-- come in any order.
pub mod Traffic
pub mod Orderly
mod Examples
use pipie.Prelude.{ℕ, ◌≡◌, Bool, true, false, Option, none, some, List, [], ◌∷◌, ◌++◌, take, Bytes}

pub record BufNAddr : Type 0 where
  pub buf : Bytes
  pub addr : Bytes

-- What a call of ReadFrom gives, before it is cut to the buffer: a datagram with its address, an
-- error, or both.
pub record Receipt : Type 0 where
  pub datagram : Bytes
  pub addr : Bytes
  pub error : Option Bytes

-- The first goroutine: at ReadFrom, at its send on readChan with the error that came along, or ended.
pub data Reader : Type 0 where
  at_read : Reader
  at_send : BufNAddr → Option Bytes → Reader
  reader_ended : Reader

pub data Writer : Type 0 where
  at_receive : Writer
  writer_ended : Writer

-- The goroutines and the connection. `delivered` is what was received from readChan, `written` what
-- WriteTo has taken. The parameter `writeTo` of CreateChan is stored and never read.
pub record PacketChan : Type 0 where
  pub reader : Reader
  pub writer : Writer
  pub closed : Bool
  pub delivered : List BufNAddr
  pub written : List BufNAddr

unfoldable pub create_chan : PacketChan
create_chan = record {
  reader = at_read;
  writer = at_receive;
  closed = false;
  delivered = [];
  written = [];
}

unfoldable pub close : PacketChan → PacketChan
close c = record c { closed = true }

-- The test of the error, with which each round of the reader ends.
unfoldable pub end_round : Option Bytes → PacketChan → PacketChan
unfolding close
end_round none c = record c { reader = at_read }
end_round (some e) c = record (close c) { reader = reader_ended }

-- What ReadFrom has put into the buffer is sent if it is not empty.
abbrev pub offer : Bytes → Bytes → Option Bytes → PacketChan → PacketChan
offer [] addr error c = end_round error c
offer (b ∷ bs) addr error c = record c {
  reader = at_send (record { buf = b ∷ bs; addr = addr }) error;
}

unfoldable pub read_round : ℕ → Receipt → PacketChan → PacketChan
unfolding end_round
read_round read_buffer_size r c = offer (take read_buffer_size r.datagram) r.addr r.error c

-- A client receives from readChan.
unfoldable pub hand_over : BufNAddr → Option Bytes → PacketChan → PacketChan
unfolding end_round
hand_over packet error c = end_round error (record c { delivered = c.delivered ++ (packet ∷ []) })

-- A client's packet is written.
unfoldable pub write_round : BufNAddr → Option Bytes → PacketChan → PacketChan
unfolding close
write_round packet none c = record c { written = c.written ++ (packet ∷ []) }
write_round packet (some e) c = record (close c) { writer = writer_ended }

-- A closed connection reads nothing and writes nothing.
abbrev pub AnswersRead : Bool → Receipt → Type 0
AnswersRead false r = Unit
AnswersRead true r = (r.datagram ≡ []) × ((e : Bytes) × (r.error ≡ some e))

abbrev pub AnswersWrite : Bool → Option Bytes → Type 0
AnswersWrite false error = Unit
AnswersWrite true error = (e : Bytes) × (error ≡ some e)

-- The events: what a ReadFrom gave, that a packet was received, what became of one that was sent to
-- writeChan, and a call of Close.
pub data Event : Type 0 where
  reads : Receipt → Event
  receives : Event
  sends : BufNAddr → Option Bytes → Event
  closes : Event

pub data ChanStep (size : ℕ) : PacketChan → Event → PacketChan → Type 0 where
  reading :
      (c : PacketChan) (r : Receipt)
      → c.reader ≡ at_read
      → AnswersRead c.closed r
      → ChanStep size c (reads r) (read_round size r c)
  handing :
      (c : PacketChan) (packet : BufNAddr) (error : Option Bytes)
      → c.reader ≡ at_send packet error
      → ChanStep size c receives (hand_over packet error c)
  writing :
      (c : PacketChan) (packet : BufNAddr) (error : Option Bytes)
      → c.writer ≡ at_receive
      → AnswersWrite c.closed error
      → ChanStep size c (sends packet error) (write_round packet error c)
  closing : (c : PacketChan) → ChanStep size c closes (close c)

-- The events in order.
pub data ChanSteps (size : ℕ) : List Event → PacketChan → Type 0 where
  created : ChanSteps size [] create_chan
  then_event :
      {events : List Event} {c d : PacketChan} (e : Event)
      → ChanSteps size events c
      → ChanStep size c e d
      → ChanSteps size (events ++ (e ∷ [])) d
