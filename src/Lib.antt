-- ===== src/Lib.antt =====
-- voxtral.cpp, a streaming speech transcription runtime in C++ on ggml, and its server. This
-- library models the parts that carry state from call to call.
--
-- Stream (src/voxtral-stream*.cpp): a stream takes audio through a Mel frontend, a causal encoder, an
-- adapter and an autoregressive decoder, and puts what comes out in a bounded event queue.
-- - Stream/State: the enumerations and the object `voxtral_stream` with its subsystems, and
--   `Pipeline`, which is all that the stream calls below it (Mel frontend, encoder stream, execution
--   context with its device rings, tokenizer, hashing, float conversion) as one abstract device
--   state. Nothing is assumed of it: a device operation may fail at any call, and may change the
--   device when it fails.
-- - Stream/Events: src/voxtral-stream-events.cpp, the queue with coalescing and terminal headroom.
-- - Stream/Decoder: src/voxtral-stream-decoder.cpp, `pump_incremental`. The statements of a function
--   that returns early are stages in `Flow`: `go` goes on, `ret` returns with a status.
-- - Stream/Frontend: src/voxtral-stream-frontend.cpp, bring-up and the drain into the encoder.
-- - Stream/Lifecycle: src/voxtral-stream.cpp; Create, Feed, Finish and Control are its operations,
--   Runs any sequence of calls. `guarded` is the reentrancy guard `op_guard`.
-- Mel (src/voxtral-mel.cpp): the reflect padding and the batch spectrogram; Mel/Frontend is the
-- incremental frontend. Both are over a parameter `kernel`, for `voxtral_mel_frame_from_window`, the
-- floating-point arithmetic of one window. A frame is an element of a list, where the source has 128
-- floats, frame after frame or as a column. A session begins with `create` and one
-- `set_retain_history`, as the stream sets a frontend up. The stream's `Pipeline` has the frontend among its device
-- operations; the theorems about it stand by themselves.
-- Stream.Eligibility (src/voxtral-stream-telemetry.cpp): the ring of the times at which the audio of
-- the committed groups became available; the decoder calls it, and the model of the decoder leaves
-- the calls out, since nothing reads them back.
-- Api (src/voxtral-c-api.cpp): the C interface. Utf8 is `utf8_prefix_at_most`, Params the versioned
-- structures that a client passes as memory, and Calls the calls on a stream.
-- KvCache (src/voxtral.cpp): the addressing of the decoder's and the encoder's K/V rings.
-- Server (server/): GpuLease, the exclusive lease on the GPU; PcmQueue, the queue between a
-- connection and its worker; Outbound, the queue of outgoing messages of a realtime session;
-- WavReader, the parser of uploaded audio; Auth, the check of an Authorization header; Config, the
-- configuration from the environment and the command line, where `strtoull` and the reading of the
-- key file are parameters. Threads are sequences of the
-- operations, each of which holds the mutex.
-- Prelude has the shared names and lemmas, Tests the theorems at concrete inputs.
--
-- Numbers are natural numbers: positions and counters of the source that are signed are never
-- negative where they are modelled, and a refusal of a negative argument is one of zero. The 64-bit
-- counters of samples are guarded as the source guards them; the other counters are taken not to
-- wrap. Texts are bytes.
--
-- Loops: `decode_loop` gets as many rounds as there are groups behind the decoder's position,
-- `drain_loop` as many as there are frames behind the encoder's cursor, and the slices of a feed
-- and the chunks of a push as many as there are samples, and the removal of optional messages as
-- many as there are messages; the walk over the chunks of a WAV file gets as many as there are
-- bytes; each round of them moves by at least one. The arguments' loop gets a round for each
-- argument, and leaves none. The reflect loop gets three rounds more than the distance of the index
-- from 0, and the loops over Mel frames one round more than there are samples or frames; a loop
-- that ran out would give `none`, as a read out of bounds and a signed overflow do. A loop of the first two kinds that
-- ran out of rounds would end in `internal_error`, which the source never returns there.
--
-- Not modelled: the Mel filterbank, window and DFT, timing telemetry but for the ring of arrival
-- times, emission times, the test hooks, the assembly of the even-trimmed Mel for introspection,
-- failures of memory allocation but for the frontend and the encoder, getters that only read a
-- field, ggml graphs and kernels; in the C interface contexts, model loading, metrics, event times
-- and exceptions; and the network parts of the server.
pub mod Prelude
pub mod Stream
pub mod KvCache
pub mod Api
pub mod Mel
pub mod Server
pub mod Tests
