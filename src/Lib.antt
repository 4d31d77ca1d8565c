-- ===== src/Lib.antt =====
-- FluxCap captures the screen on Windows and moves the frames through GPU pipelines. This library
-- models the parts of it that decide: which damage a frame carries, how damage and moves are
-- mapped to a scaled output, how frames are shared between processes, and how a pipeline goes
-- through the loss of its device.
--
-- The parts:
--   * Epoch: `PipelineEpochSupervisor` in src/gpu/pipeline_epoch_supervisor.hpp and .cpp. The
--     record of the same name holds its members; each member function is a function of that name
--     from the arguments and the state to the new state, the result and what is written to the
--     output parameter. Epoch.History composes the calls into histories: the mutex makes each of
--     them one step. Epoch.Invariant and Epoch.Enrolment say what every call keeps,
--     Epoch.Lifecycle which states follow each other, Epoch.Gone and Epoch.Replay what happens to
--     messages that come late, and Epoch.Contracts what single calls promise.
--   * Geometry: src/gpu/side_data_geometry.hpp. Geometry.Damage clips and scales dirty rectangles
--     (`clip_source_rect_to_region`, `map_local_damage_rect` and the rest), Geometry.Tap has the
--     centre taps of the planar kernel and the search over them, Geometry.MoveAxis and
--     Geometry.Move the replay of a native move. Geometry.Coverage, Support, AxisReplay and
--     Strips hold the proofs.
--   * Dirty: `DirtyTracker` in src/dirty_tracker.hpp and .cpp. Dirty.Tracker has the state, the
--     portable hash and `configure`, Dirty.Analyze the two passes of `analyze`; Dirty.Rects, Row,
--     Scan, Frame, Tables and Exact hold the proofs.
--   * Bitstream: src/gpu/bitstream_metadata.cpp up to the H.264 parameter sets. Bitstream.Reader
--     has `BitReader`, Rbsp the removal of emulation prevention bytes, Leb128 the numbers of AV1,
--     Sei `parse_sei`, Vui `parse_vui_color`, H264 `parse_h264_sps`, Metadata the records with
--     `validate_encoded_video_metadata`; Parser is the monad of parsers that keep what was
--     written before a failure. Golomb, Messages, Hdr10Messages, ColorRoundTrip and Validation
--     hold the proofs.
--   * Policy: src/gpu/desktop_duplication_policy.hpp. Policy.Decisions has the functions, without
--     their prefix `desktop_duplication_`; Policy.Backoff holds the proofs.
--   * Bus: src/gpu/shared_frame_bus.cpp, the frames that one process publishes and up to eight
--     others read. Bus.Metadata, SideData, MoveResult and CursorShape hold the payloads with
--     `normalize_metadata`, `normalize_side_data`, `normalize_move_result` and
--     `validate_cursor_shape`; Bus.Control the words of the control page; Bus.Publisher the state
--     of the publisher, with `initialize` in Initialize, `sweep_consumers_locked` in Sweep,
--     `claim_slot_locked`, `cancel_write_locked` and `commit_write_locked` in Write, the public
--     calls in Calls, and `register_consumer` and `unregister_consumer` in Registration;
--     Bus.Consumer the state of a consumer, with `acquire_latest` in Acquire, `release` in
--     Release, and `move_result` and `cursor_shape` in Lookup. Bus.History composes the
--     publisher's calls and the consumers' exchanges into histories, and Bus.Log has the log of
--     frames that they refine, with the proof in Log.Commit, Log.Calls and Log.Refines. The other
--     files hold the proofs: what a payload says and that it stays accepted (Normal, Again,
--     Planes), the publisher's invariant (Slots, Invariant, SweepKept, WriteKept, Claim,
--     CommitKept, CallsKept, NewBus), what the publisher leaves to its consumers (Holds,
--     ClaimHolds), and the consumer's side (Order, Retire, Delivers, Delivered, Answers).
--   * Gpu: the statuses and errors of include/fluxcap/gpu.hpp, and fallible calls as values.
--   * Prelude: Boolean tests, lists, integers and machine words over the native numbers.
--
-- A word of bits of the bus is the record of its bits, and an atomic exchange is the change of
-- the record. The mutex makes a call of the publisher one step against its other calls; the
-- consumers, which do not take it, change the words between the calls, and what a scan of the
-- words has read is an argument of its own, so that it may be out of date when the exchange
-- comes. What the system and the device answer is an argument too: the wait for a process, the
-- value of a fence, the results of `Signal` and of `GetDeviceRemovedReason`. The fences order the
-- accesses of the GPU to the textures; here they are the numbers that they are told.
--
-- The damage of the geometry is clipped, scaled and appended by the capture code, which is not
-- modelled, and travels with the frames of the bus; the dirty tracker serves the CPU interface
-- and the supervisor the recoverable pipeline.
--
-- Numbers are natural numbers with the wrap-around of their width written out wherever the code
-- can reach it. Parameters that stand for code outside: the counters and identities that
-- `make_nonce` reads, which are the argument `NonceReading`; the tile hash that
-- `select_hash_function` chooses, since the CRC one rests on CPU instructions; and the pixels.
--
-- Fuel: the search over the taps has the output's extent, since each round makes its interval
-- shorter; the scan of a row and the end of a run have the number of columns, since each round
-- moves on by a column; the search for a registration nonce has two rounds, since the counter
-- meets the ticket's nonce once at most; the count of leading zeros has 32, since it gives up
-- behind 31; and a SEI unit has the number of its bytes, since each message takes some. The last
-- loop of `make_unique_nonce_locked` ends only if mixing leads to a new value, so its fuel is an
-- argument and `begin_build` answers `none` when that is used up. The loops of the bus that wait
-- have a list of rounds: as many as the time that the caller gives allows, with the timeout
-- behind the last one. The attempts at a slot of a cache are a list of what each meets, with
-- three entries at most.
--
-- Not modelled: the capture back ends, encoders and shared textures, which are mostly calls of
-- Windows and D3D11; of the bus the consumer's `initialize`, the handles, the copies of textures
-- and the destructors, and `unregister_consumer` as a call of the histories; the HEVC and AV1
-- headers and the splitting of packets into units; the exact mapping of moves and the scaling of
-- cursor shapes in the geometry header; strings of states and errors.
pub mod Prelude
pub mod Gpu
pub mod Epoch
pub mod Geometry
pub mod Dirty
pub mod Bitstream
pub mod Policy
pub mod Bus
