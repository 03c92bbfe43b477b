-- ===== src/Lib.antt =====
-- go-ring talks to cameras over HTTP, a signaling WebSocket and RTP. This library models the parts of
-- it that decide: which video it writes, which signaling messages go out and in what order, what a
-- session does with what it receives, and which session descriptions it takes.
--
-- The parts and their files:
--
-- cmd/go-ring/h264_bits.go is H264/Bits.antt: h264Bits is a record, h264RBSP, bitValue, skip, ue,
-- h264SPSID, h264PPSIDs and h264SlicePPSID are functions, an `ok` result is an Option. H264/Stream.antt,
-- H264/Golomb.antt and H264/Rbsp.antt are about them.
--
-- cmd/go-ring/h264_writer.go is H264/Payload.antt (validH264Payload) and H264/Writer.antt
-- (h264FrameWriter, WriteRTP, appendPacketPayload, writeFrame, collectParameterReferences,
-- hasReferencedParameterSets, writeParameterSets, resetFrame), with the children Sets,
-- Output, Loss and Bounds.
-- The writer uses the bit reader. The depacketizer of pion/rtp is a record of functions, the output a
-- function that says which call of Write succeeds.
--
-- pkg/dependencies/websocket/writer.go is Signaling/Writer.antt (queue, remove, next, drain,
-- prioritySignalingMessage, hasExplicitPTZStop) and Signaling/Writer/Runner.antt (Send and Run as a step
-- relation in which senders, cancellations, the closing of done and the one writer take turns).
--
-- internal/signaling/session.go is Signaling/Session.antt (NewSession, finish, Fail, Send, the heartbeat),
-- Signaling/Session/Ptz.antt (validatePTZCommand, marshalPTZPayload) and Signaling/Session/Rpc.antt
-- (Handle, handleRPCFrame, handleRPC, and Call up to its wait). Signaling/Session/Rpc/Run.antt lets the
-- reader, the timers and the callers take turns; Signaling/Session/Rpc/Command.antt and Reply.antt are
-- about replies. Signaling/Message.antt has the names and limits of
-- internal/protocol/signaling.go, internal/signaling/policy.go and writer_policy.go. The session sends
-- through the connection, which is a parameter here.
--
-- pkg/dependencies/webrtc/sdp.go is Sdp.antt (ParseSDP, NormalizeAnswer, ValidateICE), with the children
-- Validation and Answer. The parser and printer of pion/sdp and strings.Fields are parameters.
--
-- pkg/dependencies/websocket/live_negotiation.go is Live.antt (AwaitLiveAnswer over the sequence of what
-- its select takes, and the functions that accept a message), with the child Answer.
--
-- cmd/go-ring/rtp_recording.go is Recording.antt (the header that newRTPRecording writes, WritePacket and
-- replayRTP), with the child Replay. The packet codec of pion/rtp, the callback and the success of each
-- write are parameters. The replay has as many rounds as the file has bytes, and each takes five or more.
--
-- pkg/dependencies/websocket/wire.go and wire_close_union.go are Wire.antt (the shared parts),
-- Wire/Inbound.antt (unmarshalSignalingFrame and below), Wire/Outbound.antt (marshalSignalingFrame and
-- below), Wire/Close.antt (normalizeCloseReasonCode) and Wire/Generated.antt (what the tags of the types
-- in pkg/dependencymodels/signaling require). The decoders and encoders of encoding/json are parameters.
-- The messages are those of Signaling/Message.antt. strconv.ParseInt is Common/ParseInt.antt.
--
-- pkg/dependencies/websocket/events.go is Events.antt: processMessages, receiveRecord and Close as steps
-- on one state, taken in any order. Events/Invariant.antt, its children Run and Refinement are about it.
--
-- pkg/ring/device_session.go is Device.antt (PanContinuous, TiltContinuous, StopPTZ, closeWithContext and
-- terminate, cut at their calls to the peer), with the children Movement and Movement/Closing. The
-- speeds and the success of each call are parameters.
--
-- tools/capture/tnetstring.go is Capture.antt: decodeTNetstring and the functions below it as a block on
-- fuel, and decodeFlowStream. Capture/Encode.antt writes down the format, Capture/Frame.antt,
-- Capture/Total.antt and Capture/Encode/RoundTrip.antt are about both. flowFromState is a parameter. The
-- decoder gets two rounds of fuel for each byte and one more.
--
-- pkg/dependencies/rest/client.go: sendWithRetry is Rest.antt, with the child Retry; what each attempt
-- meets is a parameter. The loop has as many rounds as there are attempts.
--
-- pkg/ring/signaling_connection.go is Connection.antt: route, fail, removeSession and Close, with what
-- signaling_extras.go and device_session_start.go register and remove. A call is cut where it unlocks: route
-- into its look-up and the delivery, fail and Close into what they do under the lock and the list of calls
-- that they make then, which others may come in between. The queues are the Go channels by number, with the
-- 128 places that the code gives them. Connection/Children.antt, Connection/Routing.antt,
-- Connection/Failing.antt and Connection/Ending.antt are about what becomes of the children.
--
-- Common.antt and its children hold the shared tests, lists, maps, results and the decimal printer.
-- Tests.antt and its children apply the theorems to concrete inputs.
--
-- Bytes are natural numbers, durations milliseconds; the uint64 of the bit reader, the uint16 of the
-- sequence numbers and the uint64 of the call numbers wrap where the code wraps. encoding/json is a
-- record of decoding functions, of which nothing is assumed but, for the code of a close reason, what
-- json.Unmarshal makes of strings, null and numbers.
--
-- Fuel: the loop over leading zeros has 32 rounds, and its 32nd zero ends it; the loop over a STAP-A
-- payload has as many rounds as there are bytes, and each drops at least two; the printer of decimals has
-- n + 1 rounds for n.
--
-- Not modelled: the REST clients, push, the command line, the players and the generated code, which call
-- other systems or hold plain data; the JSON encodings; the rest of the signaling
-- connection and of the device session, and the dialling of connections.
pub mod Capture
pub mod Common
pub mod Connection
pub mod Device
pub mod Events
pub mod H264
pub mod Live
pub mod Recording
pub mod Rest
pub mod Sdp
pub mod Signaling
pub mod Tests
pub mod Wire
