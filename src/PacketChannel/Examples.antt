-- ===== src/PacketChannel/Examples.antt =====
-- A packet channel that reads, delivers and fails.
use pipie.Prelude.{refl, none, some, List, [], ◌∷◌, text}
use pipie.PacketChannel.{
  BufNAddr, Receipt, PacketChan, create_chan, end_round, read_round, hand_over, write_round, close,
  Event, reads, receives, sends, closes, reading, handing, writing, closing, ChanSteps, created,
  then_event,
}
use pipie.PacketChannel.Orderly.{Orderly, ChanSteps-Orderly}

abbrev receipt : Receipt
receipt = record { datagram = text "hello"; addr = text "a"; error = none }

abbrev packet : BufNAddr
packet = record { buf = text "hel"; addr = text "a" }

abbrev events : List Event
events = reads receipt ∷ (receives ∷ (closes ∷ (sends packet (some (text "closed")) ∷ [])))

abbrev has_read : PacketChan
has_read = read_round 3 receipt create_chan

abbrev has_delivered : PacketChan
has_delivered = hand_over packet none has_read

abbrev at_end : PacketChan
at_end = write_round packet (some (text "closed")) (close has_delivered)

three_steps : ChanSteps 3 events at_end
unfolding create_chan read_round hand_over end_round close
three_steps =
    then_event (sends packet (some (text "closed")))
      (then_event closes
        (then_event receives
          (then_event (reads receipt) created (reading create_chan receipt refl tt))
          (handing has_read packet none refl))
        (closing has_delivered))
      (writing (close has_delivered) packet (some (text "closed")) refl (_, refl))

ChanSteps-Orderly_example : Orderly 3 events at_end
ChanSteps-Orderly_example = ChanSteps-Orderly 3 events at_end three_steps
