-- ===== src/Lib.antt =====
-- gmv_pjsip: SIP signalling for GB28181 video devices over PJSIP.
--
-- The crate src/ wraps a C shim over PJSIP. A `SipRuntime` (src/runtime.rs) owns the handle of the
-- shim; its methods check a request, build the structure of the C ABI and call the shim. The sockets
-- live in tasks of their own (src/io.rs), which cut TCP streams into SIP messages and put commands
-- into a queue that `poll` drains into the shim. src/message.rs, src/transport.rs and src/auth/ hold
-- the values that both sides exchange.
--
-- Where each part is modelled:
--   Prelude, Text    lists, numbers and options; text as lists of code points, UTF-8, `str` methods
--   Transport        src/transport.rs, and the printed form of socket addresses; Parse reads them
--   Message          src/message.rs: `SipMethod`, `extract_param`, `extract_tag`, `extract_uri`
--   Error            src/error.rs
--   TextMap          maps keyed by texts
--   Auth             src/auth/: the algorithms and credentials; Nonces (`NonceStore`), Digest (the
--                    headers), Verify (`verify_digest_response`, the providers), Config, Server
--                    (pjsip_server.rs)
--   Io/Framing       src/io.rs: `next_sip_message`, `content_length`, the loop of `handle_tcp_stream`
--   Io/Transmit      src/io.rs: `write_transmit`, and the writer task of `handle_tcp_stream`
--   Io/Connections   src/io.rs: `read_udp`, `accept_tcp`, `handle_tcp_stream` and the sends of `run_io`
--                    as a step relation on what they share; Closing, Table, Pushes and Kept are its
--                    invariant, Reached what follows of every command that is queued, and
--                    Sends (Kept) counts the sends that a step takes on
--   Io/Launch        src/io.rs: `SocketIoRuntime`, the set-up of `run_io`, and its loop
--   Io/Readers       src/io.rs: the loops of `read_udp` and `accept_tcp`
--   Io/Log           src/io.rs: `escape_payload`, `decode_sip_payload` and the log lines of packets
--   Runtime          src/runtime.rs: Types (requests and events), Ffi (the C ABI and the shim), State
--                    (`SipRuntime`), Checks (tests that methods share), Sequence (`next_sip_cseq`),
--                    Config (`validate`), Start (`start`), Outbound, Dialog, Sources, Packets and
--                    Lifecycle (the methods), Operations (all methods as one step); Accepts says
--                    which requests are valid apart from the code, Requests what a structure for the
--                    shim has to say, Outcomes what a method comes to,
--                    Boundary what every call of the shim satisfies; Copies (`copy_event` and the
--                    other copies of C structures), Callbacks (the callbacks), ErrorText
--                    (`pjsip_error`)
--   Gb28181          src/gb28181/: Sdp (`parse_lossy` and the builders), Xml (`extract_xml_value_lossy`
--                    and the builders), Mansrtsp (the bodies of playback control)
--   Build            gmv_pjsip_sys/build.rs: Versions, Libraries (which are linked, in which order),
--                    Steps (effects and panics), Environment, Linking, Bindings (`main`)
--   System           the socket tasks with runtime.rs: `drain_io_commands` on the queue of commands
--                    (Closed), and `runtime_send_callback` on the channel of sends (Sends)
--   Tests            runs at concrete inputs
--
-- The state of a method is passed explicitly: a method takes a `SipRuntime` and returns the result with
-- the next `SipRuntime`. The handle `raw` is the state of the shim. The shim is a parameter `Shim`: for
-- each call a status and a next state, about which nothing is assumed. `events` collects what goes into
-- the channel of events, `io_commands` is the queue of the socket tasks, and `sip_cseq` is the counter
-- SIP_CSEQ, which the process has once.
--
-- Numbers are natural numbers; `usize` wraps at 2^64 where it is added up, as in a release build, and a
-- status is a 32-bit integer. Durations are nanoseconds. The loop that takes messages off the buffer
-- runs on fuel, and one more round than the buffer has bytes is enough as long as no announced length
-- exceeds 2^64.
--
-- A parameter stands for what the crate does not define: `Shim` for the C shim, `DigestLibrary` for the
-- digests that src/auth/ takes from it, `Surroundings` for what a start finds (the lock, the result of
-- creating a handle, the thread of the socket tasks), `Decoders` for the decoders of GBK and GB18030,
-- `Floats` for floating-point numbers, `Host` for what a build finds (the environment, the file system,
-- pkg-config, the compiler, bindgen). Nothing is assumed about them. What a socket answers and the
-- sizes of the C structures are arguments. Random texts (a
-- nonce, a serial number) and the clock's reading are arguments. The threads that share SIP_CSEQ are
-- a step relation (Runtime/Sequence/Interleaving).
--
-- Not modelled: the C shim and PJSIP, which are C; waiting in the socket tasks, the sleep after an error
-- of a socket, and log lines but for those of packets; the Debug implementations of src/auth/; the
-- derived implementations and the modules that only pass names on.
pub mod Auth
pub mod Build
pub mod Error
pub mod Gb28181
pub mod Io
pub mod Message
pub mod Prelude
pub mod Runtime
pub mod System
pub mod Tests
pub mod Text
pub mod TextMap
pub mod Transport
