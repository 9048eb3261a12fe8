-- ===== src/Tests/Dhcp.antt =====
-- crates/bootycall-dhcp at concrete inputs.
use booty_call.Prelude.{ℕ, ◌≡◌, refl, Bool, true, false, Option, none, some, List, [], ◌∷◌}
use mathlib.Core.Path.{subst}
use booty_call.Prelude.Bytes.{codes}
use booty_call.Core.Config.{ServerConfig, Config, is_blank, load, loaded}
use booty_call.Core.Net.{Ipv4Addr, unspecified, is_unspecified, SocketAddr, v4}
use booty_call.Core.Store.{new}
use booty_call.Dhcp.Pxe.{discover, offer, Message}
use booty_call.Dhcp.Handler.{Env, Packet, reply_to, handle_packet}
use booty_call.Dhcp.Handler.Answers.{IsHandled, handle_packet-cases}
use booty_call.Dhcp.Handler.Bootfile.{reply_to-bootfile}

abbrev client : Ipv4Addr
client = record { a = 10; b = 0; c = 0; d = 7 }

abbrev relay : Ipv4Addr
relay = record { a = 10; b = 0; c = 0; d = 1 }

abbrev ours : Ipv4Addr
ours = record { a = 10; b = 0; c = 0; d = 2 }

abbrev source : SocketAddr
source = v4 client 68

abbrev pub message : Message
message = record {
  xid = 42;
  flags = record { broadcast = true; others = 0 };
  ciaddr = unspecified;
  giaddr = unspecified;
  chaddr = 82 ∷ 84 ∷ 0 ∷ 16 ∷ 171 ∷ 255 ∷ [];
  msg_type = some discover;
  class_identifier = some (codes "PXEClient:Arch:00007");
  architecture = some 7;
  client_identifier = none;
}

-- Every target is reached from one address.
abbrev route : Ipv4Addr → Option SocketAddr
route target = some (v4 ours 9)

abbrev ip_of : Option SocketAddr → Ipv4Addr
ip_of (some (v4 ip p)) = ip
ip_of other = ours

route-specified :
    (target ip : Ipv4Addr) (p : ℕ) → route target ≡ some (v4 ip p) → is_unspecified ip ≡ false
unfolding is_unspecified
route-specified target ip p e = subst (λ o. is_unspecified (ip_of o) ≡ false) e refl

abbrev server : ServerConfig
server = record {
  http_bind = codes "h";
  tftp_bind = codes "t";
  tftp_root = codes "tftp";
  proxy_dhcp_bind = codes "d";
  cache_dir = codes "cache";
  static_dir = codes "static";
  default_bootloader_amd64 = codes "x64.efi";
  default_bootloader_arm64 = codes "arm.efi";
  default_bootloader_bios = codes "bios.kpxe";
  oled_enabled = true;
  oled_brightness = 255;
  api_token = none;
  max_artifact_bytes = none;
}

abbrev config : Config
config = record { server = server; hosts = [] }

abbrev pub env : Env
env = record {
  decode = λ bytes. some message;
  encode = λ reply. some reply.bootfile_name;
  arch_x64 = 9;
  arch_bc = 7;
  route = route;
  local_addr = some (v4 unspecified 67);
}

abbrev pub packet : Packet
packet = record { bytes = 1 ∷ []; src_addr = source; config = config; seen_at = 5; logged_at = 6 }

handle_packet_example : IsHandled env packet new (handle_packet env packet new)
handle_packet_example = handle_packet-cases env packet new

abbrev pub mac : List ℕ
mac = codes "52:54:00:10:ab:ff"

abbrev is_addr : List ℕ → Bool
is_addr s = true

config-load : load is_addr config ≡ loaded config
unfolding load booty_call.Core.Config.validate booty_call.Core.Config.check_server
    booty_call.Text.Trim.trim booty_call.Text.Trim.skip booty_call.Text.Trim.white_front
    booty_call.Text.Trim.white_back booty_call.Core.Config.check_hosts
    booty_call.Core.Config.normalize_hosts
config-load = refl

bootfile_example : is_blank (reply_to env packet message offer mac).bootfile_name ≡ false
unfolding booty_call.Core.Config.find_host booty_call.Core.Config.find_mac
bootfile_example = reply_to-bootfile env is_addr config packet message offer mac config-load refl
