-- ===== src/Lib.antt =====
-- borderless: one keyboard, one mouse and one clipboard for several machines on a network.
--
-- A hub captures input and relays the clipboard; spokes dial it over TCP with TLS. The crates are
-- core (types of the wire), clipboard (the sync engine and the store of large payloads),
-- input-router (which screen has the focus), transport (authenticated framed connections), pal and
-- its backends (the operating systems) and cli (the commands and the runtimes of hub and spoke).
--
-- The parts and the files that model them:
--   Core            crates/core/src: NodeId, InputEvent, ClipboardSnapshot, WireFrame and the HID
--                   usages, with the constructors of the source.
--   Clipboard       crates/clipboard/src. Engine is `Engine` of lib.rs: its mutex makes every method
--                   one step of `Inner`, and `run` is any sequence of calls. Lazy is lazy.rs.
--   InputRouter     crates/input-router/src: Layout, Modifier and Router. A panic is `none`.
--   Transport       crates/transport/src: Sas, Identity, PeerStore, Endpoint (listener.rs and
--                   connector.rs), and of connection.rs Frame (the byte stream and its frames),
--                   Connection (frames of a type, the lock) and Handshake.
--   Runtime         crates/cli/src/runtime: Bootstrap is `bootstrap` of both runtimes and the accept
--                   loop, Chunks and Hub are server.rs with common.rs, Hub.Desk adds the clipboard
--                   of the hub's own desktop and its watcher, Spoke is client.rs, Link is a hub and a
--                   spoke with the frames under way between them, in any order of their steps.
--   Pal             Traits is crates/pal/src/lib.rs, Clipboard is imp.rs of the three backends. X11,
--                   Windows and Macos are keymap.rs of crates/pal-x11, pal-windows and pal-macos,
--                   with Capture and Emit for capture.rs and emit.rs; X11.Loopback is the capture of
--                   what the emitter of X11 asks the server for.
--   Cli             crates/cli/src: Config is config.rs, Commands and Clip are main.rs, Doctor is
--                   doctor.rs.
--   Base            what they share: results, words, integers, dictionaries, tests on numbers.
--
-- How the parts meet: `main_` reads the configuration and starts a runtime, which opens the identity and
-- the peer store; the hub and the spoke call the engine for each clipboard frame and the store for
-- each fetch; their frames travel over a Connection, which Handshake makes; the handshake asks the
-- peer store and the identity; an applied snapshot is written to the desktop's clipboard, which the
-- watcher polls; the router's modifier mask is the one of the wire, and the captures keep theirs by
-- the same rule.
--
-- Conventions. A byte is a number, an i32 an integer whose sum wraps, a u64 version a number whose
-- successor wraps, as in the release profile. A HashMap is a list of entries with a decision of
-- equality of the keys. A Rust `Result` is `Result`, with `?` as the bind of a do block. Messages of
-- errors and of the doctor keep their fixed text, without the values put into it. BLAKE3, Ed25519,
-- postcard, TOML, hex, the f64 of macOS and the requests of the X server and of SendInput are
-- parameters, with what is relied on of them as named hypotheses. Clocks, random secrets, variables
-- of the environment and whether a system call succeeded are arguments. What a backend sends to its
-- sink is the list of its events.
--
-- Fuel. `chunks` takes as many turns as there are bytes, which is enough since a chunk is not empty.
-- `reader` and `reader_loop` take a number of turns; what is said of them holds for each number or
-- names the number that is enough. Everything else is by structural recursion.
--
-- Not modelled: the set-up of sockets, TLS and certificates (cert.rs) and of the connections to
-- the X server and of the Windows hooks, which are calls of other crates; the threads and tasks
-- beyond the order of their steps, and that a spoke's session waits for its writer task when it
-- ends; the parsing of the command line by clap, what `status` prints, the X11 way of `clip set`,
-- which waits for another client, and logging.
pub mod Base
pub mod Core
pub mod Clipboard
pub mod InputRouter
pub mod Transport
pub mod Runtime
pub mod Pal
pub mod Cli
