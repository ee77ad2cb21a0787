-- ===== src/Lib.antt =====
-- lookauniversalremote: the web client of a universal remote control and its wire protocol.
--
-- The client (apps/web-client, TypeScript) turns touches into messages of a binary protocol
-- (packages/protocol-types) and sends them to a host. A view writes to the state of its feature;
-- the feature calls the protocol bridge, which takes the next sequence number, encodes the message
-- into its one buffer and hands the frame to the transport. Frames from the host go the other way:
-- the bridge decodes them and calls the listeners of the features. The transport sends a frame on a
-- WebRTC data channel, or on the signaling WebSocket if that fails, over which it also negotiates the
-- peer connection.
--
-- Which file models which part (paths from the root of the repository):
--   Protocol/Constants, Types  packages/protocol-types/src/constants.ts, types.ts
--   Protocol/View              the DataView and the text codecs of the platform
--   Protocol/Encoder           encoder.ts: ProtocolEncoder; Encoder/Frames has the layout of each
--                              frame field by field, Encoder/Laws compares; where docs/PROTOCOL.md
--                              has a table it is that, but for the end of MSG_GAMEPAD_FULL
--   Protocol/Reader, Decoder   decoder.ts: toDataView and decodePacket; Decoder/RoundTrip and Range
--                              take it together with the encoder, Decoder/Verdict has all its
--                              outcomes
--   Protocol/Sequence          sequence.ts: SequenceTracker and SequenceGenerator
--   Bridge                     apps/web-client/src/transport/ProtocolBridge.ts: the send operations;
--                              Bridge/Incoming has its listeners and handleIncomingData
--   Gamepad/State, Sampler     features/gamepad/useGamepadState.ts and GamepadSampler.ts; Joystick is
--                              VirtualJoystick.tsx
--   Tv                         features/tv/TvCommandService.ts
--   Context                    features/context/useSmartContext.ts
--   Keyboard, Keyboard/Layout  features/keyboard/HidKeyMapper.ts; Keyboard/Modifiers its modifier mask
--   Signaling                  transport/SignalingClient.ts
--   Transport                  transport/WebRtcTransport.ts and ITransport.ts: State, Peer, Listeners and
--                              Events; Run has the sequences of events
--   Trackpad                   features/trackpad/GestureRecognizer.ts: State, Recognizer and Lifting; Run
--                              has the sequences of events, Outputs the callback of TrackpadView.tsx
--   Studio                     features/studio: Types, Presets, Storage (layoutStorage.ts), Elements and
--                              Layouts (useCustomLayout.ts)
--   Haptics                    ui/haptics/hapticEngine.ts
--   Pairing                    features/pairing/pairingCrypto.ts: bytesToHex and hexToBytes, Handshake
--                              the rest of it but for parsePairingUri; Manager is PairingManager.ts
--   Motion                     sensors: Pipeline (ImuSensorPipeline.ts), Bias and Calibrator
--                              (BiasCalibrator.ts), Filters, Controller (GyroAimController.ts, and the
--                              pipeline's handler, whose listeners are the calibrator's and its own) and
--                              Sampler; Soundness has the sequences of events
--   Connection                 transport/HostConnectionManager.ts, Texts its strings and patterns
--   Session                    features/connection/useWebRtc.ts and ConnectionState.ts
--   Settings                   features/settings/useSettings.ts
-- The other children hold the proofs, Prelude what all of them share, Tests the runs at inputs.
--
-- How the code is read. A function that changes `this` becomes a function from the old record to the
-- new one; the fields and functions keep their names in snake case. Numbers of the source are
-- integers, and DataView's setters cut them to their width; a text is the list of its UTF-16 code
-- units, where it is not looked into a native string. Floats are a type parameter with the operations
-- that the source applies to them (Millis, Numbers, Reals, Floats). An asynchronous function stands in parts, up
-- to an `await` and after it, so that other events come in between. What a function calls outside (listeners, the haptic engine) is a list of calls that it
-- returns or that its record keeps. To the bridge the transport is a parameter, a state with a function
-- that takes the bytes of a frame and answers whether they were sent; Transport/Delivery puts the
-- modelled one in its place. What the browser or a package does is an argument: whether a call throws,
-- JSON, X25519, HMAC and fetch. TextEncoder and TextDecoder are the parameter `TextCodec`, with what
-- the platform documents for ASCII. Date.now() is an argument, and the browser's timers are the list
-- of those that are pending or active.
--
-- Bounds. The encoder's buffer has 48 bytes and the longest frame 37; theorems on sending assume a
-- buffer of at least 37 bytes and a sequence number below 65536, which every send keeps. Every
-- loop of the source is a recursion on a list, but for the one of the haptic engine, which runs on
-- fuel: as many rounds as it has milliseconds to fill, each of which fills at least ten. The decimal
-- text of a port is written on fuel too, one more than the number, which is more than it has digits.
-- A calibration ends with its target of samples, 20 at least.
--
-- Not modelled: promises as values, but for those of a calibration; the parser of pairing URIs, the
-- import of layouts, the health check of HostConnectionManager.ts; the battery and the wake lock of
-- the client; React's rendering; a listener that subscribes or unsubscribes others while
-- it is called, except in Motion, whose loop leaves out those that are removed; the host daemon and
-- the Rust crate of the protocol.
pub mod Prelude
pub mod Protocol
pub mod Bridge
pub mod Gamepad
pub mod Tv
pub mod Context
pub mod Keyboard
pub mod Pairing
pub mod Signaling
pub mod Transport
pub mod Trackpad
pub mod Motion
pub mod Connection
pub mod Session
pub mod Settings
pub mod Studio
pub mod Haptics
pub mod Tests
