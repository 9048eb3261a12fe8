-- ===== src/Tests/Tftp.antt =====
-- Transfers of crates/bootycall-tftp at concrete inputs.
use booty_call.Prelude.{ℕ, ◌≡◌, refl, true, Option, none, some, List, [], ◌∷◌, replicate, arith}
use booty_call.Prelude.Bytes.{codes}
use booty_call.Core.Store.{new}
use booty_call.Tftp.Wire.{Bytes, make_ack_packet, make_data_packet, make_oack_packet}
use booty_call.Tftp.Request.{RrqRequest}
use booty_call.Tftp.Negotiate.{negotiate}
use booty_call.Tftp.Reader.{Grant, upto, File, read_fill}
use booty_call.Tftp.Session.{
  Plan, Session, Socket, Event, Recv, packet, timeout, Round, go, done, End, whole_file,
  open_session, wire_of,
}
use booty_call.Tftp.Session.Window.{IsSound}
use booty_call.Tftp.Loop.{find_ack, run}
use booty_call.Tftp.Loop.Delivery.{Completes, run_delivers}
use booty_call.Tftp.Transfer.{opened, World, handle_tftp_transfer}
use booty_call.Tftp.Transfer.Outcomes.{IsAnswered, handle_tftp_transfer-IsAnswered}
use booty_call.Tftp.Transfer.Ends.{IsEnded, transfer_ends}

abbrev mac : Option Bytes
mac = some (codes "52:54:00:10:ab:ff")

abbrev file : File
file = record { rest = 7 ∷ 8 ∷ 9 ∷ []; grants = upto 1 ∷ [] }

abbrev socket : Socket
socket = record { sent = []; faults = [] }

abbrev plan : Plan
plan = record { blksize = 512; window = 4; deadline = 1000; mac = mac }

abbrev ack : ℕ → Event
ack block = record { polled = 10; recv = packet (make_ack_packet block); stamped = 11 }

abbrev events : List Event
events = ack 1 ∷ []

abbrev finished : Round
finished = run plan events (open_session file socket new)

abbrev after : Session
after = elim finished [ go s ↦ s | done end s ↦ s ]

ends_whole : run plan events (open_session file socket new) ≡ done whole_file after
unfolding run booty_call.Tftp.Loop.round booty_call.Tftp.Session.fill_window
    booty_call.Tftp.Session.fill_rounds booty_call.Tftp.Session.send_next booty_call.Tftp.Blocks.get
    read_fill booty_call.Tftp.Reader.fill_loop booty_call.Tftp.Reader.read
    booty_call.Tftp.Session.transmit booty_call.Tftp.Session.send booty_call.Tftp.Loop.receive
    booty_call.Tftp.Loop.on_recv booty_call.Tftp.Loop.on_packet booty_call.Tftp.Wire.is_error_packet
    make_ack_packet booty_call.Tftp.Wire.parse_ack_packet booty_call.Tftp.Blocks.insert
    booty_call.Tftp.Blocks.retain_from booty_call.Tftp.Loop.advance find_ack
    booty_call.Tftp.Loop.finish booty_call.Tftp.Session.mark_completed make_data_packet
    booty_call.Tftp.Wire.opcode
ends_whole = refl

delivers_example :
    IsSound plan file.rest socket.sent after.socket.sent
    × Completes plan file.rest socket.sent whole_file after
delivers_example = run_delivers plan events file socket new ends_whole

abbrev many : List Event
many = replicate 12 (ack 9)

abbrev oack : Bytes
oack = make_oack_packet ((codes "blksize", codes "1432") ∷ [])

abbrev request : RrqRequest
request = record {
  filename = codes "a.efi";
  mode = codes "octet";
  blksize = some 9000;
  timeout = none;
  tsize_requested = true;
  windowsize = some 64;
}

abbrev world : World
world = record {
  file = opened file;
  size = some 3;
  started = 0;
  stamped = 5;
  events = ack 0 ∷ replicate 11 (ack 1);
}

transfer_example :
    IsAnswered mac request world socket (handle_tftp_transfer mac request world socket new)
transfer_example = handle_tftp_transfer-IsAnswered mac request world socket new

ended_example : IsEnded (handle_tftp_transfer mac request world socket new)
unfolding negotiate booty_call.Tftp.Negotiate.clamp
ended_example = transfer_ends mac request world file 3 socket new refl refl (omega arith)
