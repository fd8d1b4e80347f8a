-- ===== src/Lib.antt =====
-- Verification of gotgcall, a Go library that plays media into Telegram group calls.
--
-- A Client keeps one call per chat. A call (instances/) opens a source (media/), which spawns
-- ffmpeg, reads frames from its output and sends them with one streamer per leg (audio, video) over
-- a WebRTC stack (wrtc/). What happens in the background reaches the user as callbacks through one
-- dispatcher (utils/synccallback.go). The tail of what ffmpeg prints is kept in a ring
-- (utils/ringbuf.go).
--
-- Files, and what they model:
--   Base, Base/*              names of the libraries, tests on numbers, lists, slices, int64
--   Models                    models/*.go: enums, MediaState, the sentinel errors
--   Utils/Ring                utils/ringbuf.go: RingBuffer, Write, Snapshot
--   Utils/Dispatcher          utils/synccallback.go: Submit, loop, Close, as single channel steps
--   Instances/Group/State     instances/group_call.go: GroupCall, NewGroupCall, currentStateLocked,
--                             fireUpgradeIfChangedLocked, ElapsedMs
--   Instances/Group/Ends      handleStreamerEnd up to its Submit, stopStreamersLocked
--   Instances/Group/Start     prepareStreamers, startLocked
--   Instances/Group/Control   Pause, Resume, Mute, Unmute
--   Instances/Group/Source    SetSource, in the phases between which the lock is free
--   Instances/Group/Seek      SeekBy
--   Instances/Group/Tasks     the closures given to the dispatcher, the callback of the peer
--                             connection, Stop
--   Instances/Group/History   what users, network, streamers and dispatcher do to a call in turn
--   Instances/Rtmp            instances/rtmp_call.go: RTMPCall and its methods, with the exit hook of
--                             io/shell_reader.go
--   Instances/Rtmp/Args       buildRTMPArgs
--   Media/Track               media/source.go: Track, EncodeOptions.withDefaults
--   Media/Tokens              media/shell_source.go: tokenizeShell
--   Media/Flags               ensureFFmpegFlags
--   Media/SeekArgs            injectSeek
--   Media/Shells              validateOutputCodec, FromShell, FromShells
--   Media/Opens               Open and OpenAt of MultiShellSource, in sequence and in parallel
--   Media/Single              Open and OpenAt of shellSource
--   Media/Transcode           media/transcode.go: the arguments of ffmpeg, Open, OpenAt
--   Media/Gate                media/streamer.go: gate, SetPaused, the cancellation, step by step
--   Media/Pace                media/streamer.go: run, round by round, fireEnd, ElapsedMs
--   Media/Frames              media/frame_reader.go: the Next of both readers
--   Wrtc/Ssrc                 wrtc/native/factory.go: allocateSSRC, its use in NewStack
--   Wrtc/Stack                wrtc/native/stack.go: LocalParams, Connect, OnConnectionStateChange,
--                             Close, onAgentState, transitionTo
--   Wrtc/Stack/History        what the ICE agent, Connect and Close do to a stack in turn
--   Wrtc/Setup                wrtc/native/stack.go: NewStack on the ICE agent, srtpWriter,
--                             onceCloseConn, drainInbound
--   Wrtc/Factory              wrtc/peer_factory.go and wrtc/native/factory.go: NewFactory,
--                             newStack, NewStack, Close
--   Wrtc/Factory/Filters      the filters of interfaces and addresses
--   Wrtc/Factory/Servers      translateICEServers
--   Wrtc/Certs                wrtc/native/certpool.go: NewCertPool, refill, Take, Close
--   Wrtc/Certs/Print          CertFingerprintSHA256
--   Wrtc/Keys                 wrtc/native/keys.go
--   Wrtc/Track                wrtc/native/track.go: the tracks
--   Wrtc/Params               wrtc/jsonparams/types.go, and the descriptions of SDP
--   Wrtc/Params/Offer         wrtc/jsonparams/encode.go: FromOfferSDP
--   Wrtc/Params/Codecs        encode.go: the payload types and what they are read from
--   Wrtc/Params/Exts          encode.go: hdrExts, mergeHdrExts
--   Wrtc/Params/Remote        wrtc/jsonparams/decode.go: ParseRemote; wrtc/native/remote.go
--   Wrtc/Params/Mirror        decode.go: SynthesizeRemoteOfferSDP
--   Wrtc/Params/Candidates    decode.go: candidateToSDP; remote.go: buildICECandidate
--   Wrtc/Params/Blob          wrtc/native/signaling.go: buildLocalParamsJSON
--   Wrtc/Monitor              wrtc/peer_connection.go: NewPeerConnection, Close;
--                             wrtc/keepalive.go: the loop run, pcMonitorEntry.tick
--   Wrtc/Monitor/Running      NewFactoryMonitor, Register, Start, Stop, the goroutine
--   Client/Options            gotgcall.go: the options of New, with what wrtc.NewFactory,
--                             native.NewFactory, NewGroupCall and NewDispatcher make of them
--   Client/Registry           gotgcall.go: Client, reap, callIsLive; the interface of
--                             instances/call.go as a record of operations and laws
--   Client/Methods            lookup, CreateCall, StartRTMP, Connect, SetStreamSources, Pause to
--                             SeekBy, Stop, Close
--   Client/Events             the methods called from several goroutines
--   Client/Calls              instances/call.go: GroupCall and RTMPCall as a Call
--   Client/Info               Time, GetState, Calls, AudioSSRC
--   Client/Info/Callbacks     OnStreamEnd, OnConnectionChange, OnUpgrade, eventsFor
--   Io/Lines                  io/shell_reader.go: stderrLineWriter, trimTail
--   Io/Shell                  io/shell_reader.go: ShellReader, its reaping, Read, Close
-- The other files under Instances/Group and Client, and the files under the other modules named
-- here, hold proofs; a file Tests holds runs at concrete inputs.
--
-- State is passed explicitly: an operation is a function from the state to the state and what is
-- returned. A method that holds the mutex is one function; SetSource, which gives it up, takes what
-- others do in between as an argument. Each operation of the dispatcher's channel is a step of its
-- own. What goes to the dispatcher from a call is a list of tasks, in order; that a full queue drops
-- its oldest task is stated on the dispatcher's own model. The gate of a streamer is modelled in
-- steps too, and its run loop in rounds. A stack's change of state and the call of its callback are
-- two steps, with others between them. The methods of a Client take what other goroutines do
-- meanwhile as an argument.
--
-- Integers: uint64 and int64 keep their wrap-around (Base/Int64). Lengths and counts are natural
-- numbers. Every loop that is modelled is a recursion on its data, but for the dispatcher's loop,
-- which never ends and is a step, and three that run on fuel: that of allocateSSRC, for which 2
-- rounds are enough, the reading of a whole Opus stream, for which one round more than it has pages
-- are, and the loop over the lines of stderr, which is given one round more than there are bytes.
--
-- Arguments that stand for what lies outside: what opening a source gives (ffmpeg), the error that
-- a streamer reports when it is stopped, how the wait for the connection ends, what starting a
-- process returns, the time, the error that a killed process leaves, what each step of the WebRTC
-- handshake returns, what pion, encoding/json and the operating system return to the factories, the
-- tracks and the parameters. A call of a Client is a shared object with a number: the map of the
-- client and the methods that are under way hold the number.
--
-- Texts that the code looks into are lists of ASCII bytes (Base/Ascii), others native texts.
--
-- Not modelled: logging, the texts of errors, ffmpeg, pion with its parsing of SDP and its packets,
-- cryptography, JSON, the example bot; the timer of a streamer against a source that stalls, the
-- number of samples of a duration (floating point).
pub mod Base
pub mod Utils
pub mod Models
pub mod Instances
pub mod Media
pub mod Wrtc
pub mod Client
pub mod Io
