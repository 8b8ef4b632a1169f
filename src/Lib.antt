-- ===== src/Lib.antt =====
-- A model of the C programs under packages/c: `sshnpd`, the daemon that serves signed requests, and
-- `srv`, which bridges a local port to a relay.
--
-- The parts. The daemon parses its options (params.c, permitopen.c), then handles notifications
-- (daemon.c, the handlers, handler_commons.c). A request arrives as a signed JSON envelope; the
-- daemon checks signature, contents and the permit-open list before it starts `srv`, whose
-- multi-session side (srv.c) takes further requests from a control channel.
--
-- The files.
--   Base, Code: bytes, C strings in buffers, outcomes; return codes.
--   PermitOpen: packages/c/sshnpd/src/permitopen.c. A buffer is the list of its bytes with the NULs;
--     a pointer is the rest of the list from there, and a read past the end is `fault`. `long` has
--     64 bits. Below it: Decimal, Buffer, Trim, RoundTrip and Access prove; Reference is a parser that
--     splits the text in place of marking a buffer.
--   Control: process_multiple_requests and parse_control_message of packages/c/srv/src/srv.c. The
--     splitting loop takes the length of the input, plus one, as fuel; each round takes a byte.
--   Params: packages/c/sshnpd/src/params.c, behind argparse, whose results are an argument. The lists
--     hold texts in place of pointers into the command line.
--   Handler: packages/c/sshnpd/src/handler_commons.c. cJSON, atclient, atchops, malloc and fork
--     are the record `World`; a call leaves a trace of allocations, releases and other effects, and
--     a null pointer that is followed is a crash.
--     Session makes the auth string and the session keys, Success sends the response, Request holds
--     handle_npt_request.c, handle_ssh_request.c and run_srv_process.c, Ping handle_ping.c. Traces counts
--     what is held and tells the events outside of the process; Releases and Authorised prove by it.
--   Daemon: main_loop of packages/c/sshnpd/src/daemon.c. The answers of the client library and of the
--     handlers are a list of rounds; the loop is over that list. Keys, Timeouts and Tests prove and run.
--   Clients: packages/c/sshnpd/src/daemon_utils.c, which gets the clients of the daemon connected again; its
--     calls are events.
--   SshPublicKey: the prefix test of packages/c/sshnpd/src/handle_sshpublickey.c.
--   AuthorizedKeys: the rest of it, and packages/c/sshnpd/src/file_utils.c. The file is its bytes; Added
--     is about the lines of a file, Kept proves.
--   RootDomain: the root domain in packages/c/sshnpd/src/main.c. `int` has 32 bits.
--   Start: the rest of that main, stage by stage, with what it lists to be freed at the end. Loops says
--     what stands behind the main loop, Defaults starts from the default values, Cleaned counts how
--     often the list is freed.
--   DeviceInfo: packages/c/sshnpd/src/device_info.c. Each round has its own answers of the client library
--     and of the clock. Usernames is about the start.
--   Srv: create_encrypter_and_decrypter and the control loop of packages/c/srv/src/srv.c; Multi and Socket
--     are its callers. The network, mbedtls, malloc and pthreads answer through records; the loop is over
--     the reads that return something. Ciphers, Connections, Failures, Threads and Reached prove.
--   SrvParams: packages/c/srv/src/params.c behind argparse.
--   Composition: the npt handler with the srv that it runs; Main: packages/c/srv/src/main.c, which runs
--     srv on the parameters of params.c; Loop: the main loop with the handlers that it calls;
--     Strangers: who is served; KeyFile: the main loop with the file of authorized keys; Defaults: what is
--     bridged to without a permit-open list of the user's.
--   Side: packages/c/srv/src/side.c. Connect sets a side up. In the relay loop, what the socket gives and
--     what each send takes are lists, the transformer is a function of the round; Stream makes it of
--     aes_ctr_crypt_stream in srv.c.
--   Tests: runs on concrete inputs.
--
-- Not modelled: logging; the handlers of signals, which end the daemon or reap a child; the vendored
-- argparse, which is an argument; the build with a testing shutdown; the tool for graceful shutdowns; the
-- programs in other languages. Time does not pass: a wait is an event, or nothing.
pub mod Base
pub mod PermitOpen
pub mod Control
pub mod Code
pub mod Clients
pub mod Handler
pub mod Params
pub mod Side
pub mod Daemon
pub mod Tests
pub mod SshPublicKey
pub mod SrvParams
pub mod Srv
pub mod Composition
pub mod DeviceInfo
pub mod RootDomain
pub mod Start
pub mod AuthorizedKeys
