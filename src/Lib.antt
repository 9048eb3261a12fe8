-- ===== src/Lib.antt =====
-- BootyCall: a network boot appliance. A PXE client asks the proxy DHCP server for a bootloader, fetches
-- it from the TFTP server, and the bootloader asks the HTTP server which script, kernel and initrd to run.
-- The extractor fills the cache that the HTTP server serves from; every server keeps the shared state store
-- up to date, which the endpoints under /api and the display read.
--
-- The parts and their files:
-- - Prelude: the shared names of the libraries, Boolean tests on numbers (Prelude/Tests), lists
--   (Prelude/Lists), byte strings (Prelude/Bytes) and integers over the native ℕ (Prelude/Ints).
-- - Text: what the code uses of Rust's strings, on their UTF-8 bytes: validity and lossy decoding
--   (Text/Utf8), decimal numbers (Text/Decimal), trimming of Unicode white space (Text/Trim).
-- - Core, crates/bootycall-core/src: mac.rs (Core/Mac), state.rs (Core/Store, over the association lists
--   of Core/HostMap), config.rs (Core/Config: Config::validate, Config::load, Config::find_host; Core/Config/Watch:
--   the thread of watch_config), path.rs (Core/Path: safe_join), and the addresses of std::net (Core/Net).
-- - Dhcp, crates/bootycall-dhcp/src/server.rs: is_pxe_client (Dhcp/Pxe), choose_reply_dest and
--   resolve_local_ip (Dhcp/Route), run_dhcp_server (Dhcp/Handler).
-- - Tftp, crates/bootycall-tftp/src: wire.rs (Tftp/Wire), and of server.rs: parse_rrq (Tftp/Request), the
--   option negotiation (Tftp/Negotiate), read_fill (Tftp/Reader), the state and the filling of the
--   sliding window (Tftp/Session, with its buffer in Tftp/Blocks), the send loop (Tftp/Loop),
--   send_and_await_ack (Tftp/Handshake), handle_tftp_transfer (Tftp/Transfer) and
--   run_tftp_server_with_limit (Tftp/Listener).
-- - Http, crates/bootycall-http/src/server.rs: the answers, the Host header and the files (Http, Http/Served),
--   poll_handler with decide_poll_outcome and apply_outcome (Http/Poll), menu_handler (Http/Menu),
--   wallpaper_handler (Http/Wallpaper), check_api_token with constant_time_eq (Http/Token), the handlers
--   under /api (Http/Api), and the routes of run_http_server (Http/Routes).
-- - Extractor, crates/bootycall-extractor/src: of disk.rs PartitionSlice (Extractor/Slice) and
--   extract_from_disk (Extractor/Disk); iso.rs (Extractor/Iso); the search for a file that both have, with its
--   limit on directories (Extractor/Walk); of lib.rs copy_capped (Extractor/Copy, and Extractor/Artifact for
--   what a copy leaves), sync_host_cache and host_cache_ready (Extractor/Cache, and Extractor/Images for
--   both readers under it), and the sweep of
--   sync_all_hosts_cache (Extractor/Sync).
-- - Led, crates/bootycall-led/src/lib.rs: set_led_cached_with and run_led_manager (Led), and the start of the
--   manager before its loop (Led/Boot).
-- - Oled, crates/bootycall-oled/src: framebuffer.rs (Oled/Framebuffer), the lines, rectangles and dots of
--   renderer.rs (Oled/Draw), png.rs (Oled/Png), and of lib.rs brightness, placement and bounce
--   (Oled/Layout), the optional lines, PanelSink and the render loop (Oled/Panel), and the texts of the
--   metrics pages (Oled/Page), oled_test (Oled/Sample), and the texts and counts of metrics.rs
--   (Oled/Metrics).
-- - Suite, crates/bootycall-rs/src/main.rs: the commands, the start, the end with graceful_shutdown, and the
--   configuration that the watcher replaces.
-- - Tests: the theorems at concrete inputs.
--
-- How the code is modelled. A function of the source is a function here under the same name; what it
-- changes is passed and returned as a record. Strings and packets are lists of bytes. Times are numbers
-- of nanoseconds, and whatever reads the clock takes what it reads as an argument. A socket is the list
-- of the packets sent and whether the sends to come fail; what is received comes as a list of events, one
-- for each wait. A file is the bytes not read yet and how long the reads to come are. A loop that waits
-- runs over the list of events, and says so when it still waits at their end.
--
-- Bounds and fuel. The loop of read_fill runs on fuel, the size of the buffer: a round that goes on reads
-- a byte at least. The filling of the window runs on the blocks that the window leaves free, each of which
-- a round sends. A decimal number is printed on 20 digits, which hold every number of 64 bits. The loops
-- over ACKs need no fuel; they end after at most five events for every block.
-- The numbers of draw_line are 64-bit and wrap. Its loop runs on fuel; if the coordinates are below 2^61, one
-- step more than the two distances between its ends is enough. The
-- stored blocks of a PNG run on the length of the bytes, since every block takes one at least. The search for
-- a file goes down 64 directories, which is the limit of the source.
--
-- Parameters. The file system (canonicalize, exists, metadata, the entries of a directory), the routes and
-- sockets of the operating system, the codec dhcproto, the parsed YAML and JSON, the parser of socket
-- addresses, SHA-256, the templates of minijinja, the partitions of gpt, the trees of fatfs and iso9660, the
-- events of notify, the GPIO lines, the text layout of ab_glyph and the values of sysinfo are arguments of
-- the definitions that use them.
--
-- Concurrency. The last writes of the boot blinking and the turns of the LED manager run side by side: a run of
-- Suite says which turns come before those writes. A panic in a callback of the watcher is a flag.
--
-- Not modelled: logging, which is output only; the error enumerations with their texts; the embedded assets,
-- which are data; the temperatures, the host name and the address of metrics.rs, which are floating point
-- and input; the simulator of the display, which draws with what is modelled here; and the tests.
pub mod Prelude
pub mod Text
pub mod Core
pub mod Tftp
pub mod Dhcp
pub mod Extractor
pub mod Led
pub mod Http
pub mod Oled
pub mod Suite
pub mod Tests
