-- ===== src/Tests/Listener.antt =====
-- The TFTP server of crates/bootycall-tftp at concrete inputs.
use booty_call.Prelude.{◌+◌, ◌≤◌, ◌≡◌, refl, true, false, ◌++◌, none, some, [], ◌∷◌, length}
use booty_call.Prelude.Bytes.{codes}
use booty_call.Core.Path.{Components}
use booty_call.Core.Store.{HostState, booting, get_host}
use booty_call.Tftp.Request.{RrqRequest}
use booty_call.Tftp.Listener.{Arrival, Server, Files, replied, busy_error, accept, listen}
use booty_call.Tftp.Listener.Answers.{IsHeard, listen-IsHeard}
use booty_call.Tftp.Listener.Known.{accept_busy}
use booty_call.Tftp.Listener.Slots.{start, arrives, Reached, begins, follows, Reached-bounded}
use booty_call.Tests.Dhcp.{packet, mac}

abbrev files : Files
files = record {
  system = record { canonicalize = λ path. some path; exists = λ path. true };
  path_of = λ dir. dir ∷ [];
  display = λ path. codes "a.efi";
}

abbrev request : RrqRequest
request = record {
  filename = codes "a.efi";
  mode = codes "octet";
  blksize = none;
  timeout = none;
  tsize_requested = false;
  windowsize = none;
}

abbrev arrival : Arrival
arrival = record {
  bytes = 0 ∷ 1 ∷ (codes "a.efi" ++ (0 ∷ (codes "octet" ++ (0 ∷ []))));
  src_addr = packet.src_addr;
  config = packet.config;
  bound = true;
  connected = true;
  seen_at = 8;
  logged_at = 9;
}

listen_example : IsHeard files arrival (start 2) (listen files arrival (start 2)).action
listen_example = listen-IsHeard files arrival (start 2)

abbrev served : Server
served = (listen files arrival (start 2)).server

Reached-served : Reached files 2 served
Reached-served = follows (start 2) served begins (arrives arrival (start 2))

bounded_example : (length served.running ≤ 2) × (served.slots + length served.running ≡ 2)
bounded_example = Reached-bounded files 2 served Reached-served

abbrev path : Components
path = codes "tftp" ∷ codes "a.efi" ∷ []

busy_example :
    ((accept files arrival request (some mac) path (start 0)).action ≡ replied busy_error)
    × ((h : HostState) × (get_host mac
            (accept files arrival request (some mac) path (start 0)).server.store
          ≡ some h)
        × (h.status ≡ booting))
unfolding get_host booty_call.Core.HostMap.lookup
busy_example = accept_busy files arrival request mac path (start 0) refl refl refl
