-- ===== src/Lib.antt =====
-- The control library behind the remote client of an Elecraft K4 radio, core/ of the repository,
-- modelled and verified.
--
-- The engine (core/src/engine) owns the other parts. Bytes from the radio's socket go to the
-- protocol parser (core/src/network/protocol.cpp), which calls the engine with frames: a CAT
-- response goes to the radio's state (core/src/models/radio_state.cpp), which notifies the engine
-- of what changed, audio goes through the codec to the ring buffer
-- (core/src/audio/ring_buffer.cpp), and spectra go to the application. The application's commands
-- become CAT text in frames for the radio. The reconnect policy
-- (core/src/network/reconnect_policy.cpp) times the attempts after a lost connection, and the CAT
-- server (core/src/network/cat_server.cpp) answers other programs from the radio's state. The
-- socket is the TCP client's (core/src/network/tcp_client.cpp), whose thread reads from it. Tables
-- and scales are in core/src/utils/radio_utils.cpp. An application, through its bindings, has the
-- C functions of core/src/qk4_api.cpp. The client of a DX cluster node
-- (core/src/network/dx_cluster_client.cpp) stands by itself: the engine does not use it, and
-- neither does it use the signal processing (core/src/dsp).
--
-- The files:
--   Base: names and lemmas that the others share: numbers, integers, lists, text (`snprintf`,
--     `std::stoll` and their relatives) and the splitting of text at a delimiter.
--   Protocol: `Protocol`. `switch` is one round of the loop in `processBuffer`, `process` the
--     loop, `feed_data` is `feedData`, `encode` is `encode`.
--   RadioState: `RadioState`. Setters and Receivers hold one function for each setter, Op the
--     setters as values, Cat `parseCatCommand`, Reports the texts of the radio that it reads.
--   Reconnect: `ReconnectPolicy`.
--   CatServer: `CatServer`. `handle_query` is `handleQuery`; Client is `clientHandler` on the
--     bytes of the reads; Clients is `start`, `stop`, the accept loop and `removeClient`. Relay is
--     about a server on the engine's radio state; the engine has a pointer for one (`m_catServer`)
--     and never makes it.
--   RadioUtils: the functions of `RadioUtils`, a child for each table or scale.
--   RingBuffer: `RingBuffer`, with positions that wrap at 2^64, each operation as one step.
--     Capacity is the constructor; Threads are `write` and `read` access by access, in any
--     interleaving.
--   Engine: `Engine`. Commands are the methods that send to the radio, Sent the texts that they
--     send, Local the settings, Frames `onProtocolFrame` and the data callback, Connection
--     `connect`, `disconnect`, `shutdown` and `onDisconnected`, Callbacks the registrations and
--     the stubs, Reading the client's thread with the engine's callbacks, Pieces its independence
--     of how the reads cut the bytes, Reports the way of a CAT report to the radio's state and the
--     callbacks, Reconnecting the thread that `onDisconnected` starts.
--   TcpClient: `TcpClient`. Send is `send`, Read is `readLoopFunc`, Lifecycle sequences of calls.
--   DxCluster: `DxClusterClient`. Spot is `parseSpot`, Print the format that it reads, Lines and
--     Reconnecting are about `readLoop` and `connect`.
--   Dsp: Spectrum is `SpectrumProcessor`, Smoothing what it shows, Lms is `NrLms`, Ssnr is
--     `NrSsnr`, with Transform for `processFrame` and Stream for `process`, and the child Window
--     of Lms the delay line as the list of the last inputs.
--   Api: the C functions. Control holds one function for each, Session calls one behind another.
--   Sidetone: `SidetoneGenerator`.
--   Codec: `QK4OpusDecoder` and `QK4OpusEncoder`.
--   JniBridge: android/app/src/main/cpp/jni_bridge.cpp. Natives are the native methods, Callbacks
--     the native callbacks, Sequence calls of the methods one behind another.
--
-- A method returns the new state, and what it calls outside (callbacks, the socket) as a list, in
-- order. Integers that may be negative are integers; a length or a position is a natural number,
-- with its wrap-around written out where the code can reach it. The loop of the parser runs on
-- twice the length of the buffer and two rounds more, which is enough: a round takes at least one
-- byte, or goes from a payload to the end marker. The loop of `send` runs on one round more than
-- there are bytes, which is enough since a round takes at least one. The loops of the threads
-- recurse on the list of what their rounds find. A mutex that its own thread locks again is the
-- result `deadlock`; a thread that is assigned to one that was not joined ends the program, and is
-- `none`. What `accept`, `bind`, `recv`, `getaddrinfo`, `connect`, `poll`, the TLS library and the
-- audio decoder return is a parameter, and so is the type `double`, the type `float` in the signal
-- processing and the tone, and libopus in its wrappers. An engine takes the result of its client's
-- `connect` as a number. Its calls that start and stop the client's thread are events.
-- `NewGlobalRef` is taken to succeed.
--
-- Not modelled: the Kotlin code of the Android application, and the tests. Calls of the native
-- methods from several Java threads at once are not part of the model. Descriptors are numbers:
-- that the system gives one out again while a thread still reads from it is not part of the model,
-- and neither are data races; the accesses of the ring's two threads are seen by both in one
-- order.
pub mod Base
pub mod Protocol
pub mod RadioState
pub mod CatServer
pub mod Reconnect
pub mod RadioUtils
pub mod Engine
pub mod RingBuffer
pub mod TcpClient
pub mod DxCluster
pub mod Dsp
pub mod Api
pub mod JniBridge
pub mod Sidetone
pub mod Codec
