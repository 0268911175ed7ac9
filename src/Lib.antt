-- ===== src/Lib.antt =====
-- The SSTP client: sstp-proto, which reads and writes SSTP packets, negotiates PPP, authenticates
-- with MS-CHAPv2 and drives the connection and its tunnel device; and the application in src/, whose
-- window starts a helper process with the rights of root, follows it, and repairs the default route.
--
-- Parts, from the wire inwards, and the files here that model them:
--
--   sstp-proto/src/http.rs       Http, the request and the response in front of the SSTP stream
--   sstp-proto/src/packet.rs     Packet, Packet.Reader. `decode` and `encode_*` on byte lists; a
--                                `PacketReader` is its buffer, and each method returns the new one.
--   sstp-proto/src/connection.rs Connection. `run` is a function of what the outside does: how each
--                                call ends (`World`, which may look at all that was done before),
--                                what `tls.read` gives, and what `select!` wakes up with. Its
--                                effects are a log of actions, latest first. Packet.Reader
--                                (`drain`, `feed`) is the inner loop without the engine.
--                                Connection.Handle: `connect` and `Handle`, as steps of the caller
--                                and of the task
--   sstp-proto/src/utun.rs       Utun, over the answers of the system calls (`Kernel`)
--   sstp-proto/src/ppp.rs        Ppp
--   sstp-proto/src/cp.rs         Cp, the frames and options that LCP and IPCP share; Cp.Desired is
--                                the list of desired options that both edit, and Cp.Revisions
--                                what a request asks for after a Nak or a Reject
--   sstp-proto/src/lcp.rs        Lcp, sstp-proto/src/ipcp.rs: Ipcp. `receive` takes the state and a
--                                frame and returns the new state with what is to be sent.
--   sstp-proto/src/chap_fsm.rs   ChapFsm, over sstp-proto/src/chap.rs: Chap
--   sstp-proto/src/mppe.rs       Mppe
--   sstp-proto/src/cmac.rs       Cmac
--   sstp-proto/src/engine.rs     Engine. `on_packet` hands a control packet to `on_ctrl`, and the
--                                PPP frame of a data packet to LCP, CHAP, IPCP or the tunnel. It
--                                returns the new engine with its events, or `panic` where an
--                                `expect` of the source fails.
--
--   src/worker.rs                Worker, the state of `async_main` over the events of a connection
--                                and the polls for a disconnect request; its effects are a log
--                                too, in which a route command is one that was run, whether or
--                                not it succeeded. `drop_runtime` is the end of `run_inner`,
--                                which waits for the thread that reads the tunnel device.
--   src/ipc.rs                   Ipc, the status as a value, and `pid_alive`; Ipc.Files, the files
--   src/route.rs                 Route, over the answers of a `Machine`; Route.Healing is the flag
--                                among calls that overlap, as a step relation
--   src/elevate.rs               Elevate, the quoting, the scripts and the commands that run them
--   src/main.rs                  App, the profiles, the poll of the status file and `main`;
--                                App.Screens, the two screens on what is clicked and typed in a
--                                frame (`ui`); App.Frame, the rest of a frame (`logic`) and the
--                                menu of the tray, with what the threads do to the window in
--                                the meantime (`Arrival.meanwhile`); App.Ids, the ids of new profiles;
--                                App.Durations; App.Session, the threads that connect and
--                                disconnect
--   src/i18n.rs                  I18n, the texts; Host, which language is detected
--   src/log.rs, src/keychain.rs: Host, what is made of the texts they read, and the commands
--
-- Engine.History describes what the engine has received as a list of packets, latest first, and
-- Engine.Handshake, Engine.Panics, Engine.Complete, Engine.Early and Engine.Rechallenge speak of
-- such histories.
-- Packet.Reader is under the sockets, Engine behind it; the connection pushes bytes into the one
-- and gives its packets to the other (Connection.Stream). Connection.Log says what the log of a task
-- may contain, with the packets given to the engine as its history. The worker hears the
-- events of that log (Worker.Reports). The window and the worker meet in the files of Ipc.Files:
-- Coordination has their steps in any order, Worker.Truth what the worker has done when it writes a
-- status, Coordination.Status what the window reads, and Coordination.Cancel a disconnect.
--
-- A byte and a code point are natural numbers (native ℕ). That a byte is below 256 is a hypothesis
-- where it matters, and lengths and identifiers wrap where the source casts or wraps (`as_u8`,
-- `as_u16`). A Rust string is its list of code points; Prelude.Text has the conversions of the
-- standard library that the source uses. The digests, message codes and DES of the crates are
-- the record Prelude.Crypto, with the lengths of their results; random numbers are arguments
-- (`Draws`). The texts of events are constructors that hold what is printed.
--
-- The fields that the source calls `data` are named `value` or `payload` here.
--
-- Loops on fuel: `decode_options` has the length of its buffer, and `drain` and `packet_loop` one
-- round more than their buffer has bytes. Each round takes 2 bytes, or 4, so this is enough; for
-- `drain` see Packet.Reader.Drain, for `packet_loop` Connection.Safety.
-- `u32_to_string` has ten digits, a part of a duration at most twenty, and an id of a profile 32 hex
-- digits. The reads and wakes of a connection, the wakes of a worker and the states read while the
-- window waits are finite lists: what was done up to some time.
--
-- Not modelled: TLS (tls.rs), the system calls and what the commands do (route, ifconfig,
-- osascript, security, kill), the JSON of the status file and of the configuration (serde), what is
-- drawn and the icons (main.rs), the icon generator, and the paths of the files. The first three
-- are other programs or libraries, which stand as parameters or as actions of the logs; the rest is
-- drawing or constant data. A poisoned lock is a panic of `ui`, but not of `logic`, where a tray
-- that cannot be built is not modelled either. Whether the reader thread of the tunnel device ends
-- is a parameter (`Setting.reader_ends`). What a widget says of a click is an argument of a frame.
-- A program that is started, with its arguments, is a `Command` (Prelude.Command), also behind the
-- actions of the worker that change routes (Worker.Commands).
pub mod Prelude
pub mod Ppp
pub mod Cp
pub mod Lcp
pub mod Ipcp
pub mod Chap
pub mod ChapFsm
pub mod Mppe
pub mod Cmac
pub mod Engine
pub mod Packet
pub mod Utun
pub mod Connection
pub mod Ipc
pub mod Elevate
pub mod Route
pub mod App
pub mod Coordination
pub mod Host
pub mod I18n
pub mod Worker
pub mod Http
mod Tests
