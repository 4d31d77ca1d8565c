-- ===== src/Bus/Publisher/Calls.antt =====
-- The calls of the producer, each of them under the mutex.
use fluxcap.Prelude.{
  ℕ, ◌+◌, ◌-◌, ◌%◌, Bool, true, false, not, ◌&&◌, ◌||◌, ◌==◌, ltb, leb, List, get_or, set,
  if◌then◌else◌, u64, u64_max, u32, Option, none, some,
}
use fluxcap.Gpu.{
  GpuError, Result, value, error, ◌>>=◌, ◌>>◌, refuse, success, make_error, misused, invalid,
  timeout_error, e_unexpected, invalid_argument, system_error, is_ok,
}
use fluxcap.Bus.Metadata.{SharedFrameBusFrameMetadata}
use fluxcap.Bus.SideData.{SharedFrameBusFrameSideData}
use fluxcap.Bus.MoveResult.{SharedFrameBusMoveResult, normalize_move_result}
use fluxcap.Bus.CursorShape.{WgcCursorShape, validate_cursor_shape}
use fluxcap.Bus.Publisher.{SharedFrameBusPublisherState, SharedFrameBusConfig}
use fluxcap.Bus.Publisher.Write.{
  Round, DeviceReading, claim_slot, cancel_write, commit_payload, commit_write, next_token,
}

-- A texture as `GetDesc` and `same_device` describe it; `none` is a null pointer.
pub record SourceTexture : Type 0 where
  pub of_this_device : Bool
  pub width : ℕ
  pub height : ℕ
  pub format : ℕ
  pub mip_levels : ℕ
  pub array_size : ℕ
  pub sample_count : ℕ

-- `E_POINTER`.
abbrev pub e_pointer : ℕ
e_pointer = 0x80004003

unfoldable pub validate_source : SharedFrameBusConfig → Option SourceTexture → Result (Unit {0})
validate_source c none = error (make_error invalid_argument e_pointer)
validate_source c (some t) =
    refuse
      (not t.of_this_device
        || not (t.width == c.width)
        || not (t.height == c.height)
        || not (t.format == c.format)
        || not (t.mip_levels == 1)
        || not (t.array_size == 1)
        || not (t.sample_count == 1))
      invalid

unfoldable pub closed_error : SharedFrameBusPublisherState → GpuError
closed_error p = if is_ok p.terminal_failure then misused else p.terminal_failure

abbrev pub count_attempt : SharedFrameBusPublisherState → SharedFrameBusPublisherState
count_attempt p = record p {
  statistics = record p.statistics { publish_attempts = u64 (p.statistics.publish_attempts + 1) };
}

-- What `publish` asks before it claims a slot. The payload is the one that it commits.
unfoldable pub check_publish :
    SharedFrameBusPublisherState
    → Option SourceTexture
    → SharedFrameBusFrameMetadata
    → SharedFrameBusFrameSideData
    → Result (SharedFrameBusFrameMetadata × SharedFrameBusFrameSideData)
unfolding closed_error validate_source commit_payload
check_publish p source metadata side_data = do
  refuse p.shutting_down (closed_error p)
  refuse (not (p.reserved_producer_token == 0)) misused
  validate_source p.config source
  commit_payload p metadata side_data

-- The slot is copied into and committed, once it is claimed.
unfoldable pub commit_claimed :
    DeviceReading
    → SharedFrameBusFrameMetadata
    → SharedFrameBusFrameSideData
    → SharedFrameBusPublisherState × Result (ℕ × ℕ)
    → SharedFrameBusPublisherState × GpuError
unfolding commit_write
commit_claimed d m s (q, error e) = (q, e)
commit_claimed d m s (q, value (slot, token)) = commit_write slot token false d m s q

unfoldable pub publish_checked :
    Result (SharedFrameBusFrameMetadata × SharedFrameBusFrameSideData)
    → List Round
    → DeviceReading
    → SharedFrameBusPublisherState
    → SharedFrameBusPublisherState × GpuError
unfolding claim_slot commit_claimed
publish_checked (error e) rounds d p = (p, e)
publish_checked (value (m, s)) rounds d p =
    commit_claimed d m s (claim_slot rounds (count_attempt p))

unfoldable pub publish :
    Option SourceTexture
    → SharedFrameBusFrameMetadata
    → SharedFrameBusFrameSideData
    → List Round
    → DeviceReading
    → SharedFrameBusPublisherState
    → SharedFrameBusPublisherState × GpuError
unfolding check_publish publish_checked
publish source metadata side_data rounds d p =
    publish_checked (check_publish p source metadata side_data) rounds d p

-- `SharedFrameBusWriteLease`, without the texture and the pointer to the bus.
pub record SharedFrameBusWriteLease : Type 0 where
  pub slot : ℕ
  pub token : ℕ
  pub sequence : ℕ

abbrev pub wrong_producer : ℕ → SharedFrameBusPublisherState → Bool
wrong_producer producer_token p =
    (producer_token == 0 && not (p.reserved_producer_token == 0))
    || (not (producer_token == 0) && not (producer_token == p.reserved_producer_token))

unfoldable pub lease_of :
    SharedFrameBusPublisherState × Result (ℕ × ℕ)
    → SharedFrameBusPublisherState × Result SharedFrameBusWriteLease
lease_of (q, error e) = (q, error e)
lease_of (q, value (slot, token)) =
    (q, value (record { slot = slot; token = token; sequence = u64 (q.sequence + 1) }))

-- `lock_is_free` says what `try_lock` answers, `once` that the timeout is zero.
unfoldable pub begin_publish :
    Bool
    → Bool
    → Bool
    → ℕ
    → List Round
    → SharedFrameBusPublisherState
    → SharedFrameBusPublisherState × Result SharedFrameBusWriteLease
unfolding closed_error claim_slot lease_of
begin_publish lock_is_free once lease_is_empty producer_token rounds p =
    if not (producer_token == 0) && once && not lock_is_free
    then (p, error timeout_error)
    else if not lease_is_empty
    then (p, error misused)
    else if p.shutting_down
    then (p, error (closed_error p))
    else if wrong_producer producer_token p
    then (p, error misused)
    else lease_of (claim_slot rounds (count_attempt p))

unfoldable pub reserve_producer :
    ℕ → SharedFrameBusPublisherState → SharedFrameBusPublisherState × Result ℕ
unfolding closed_error
reserve_producer output_token p =
    let token = next_token p.next_producer_token in
    if not (output_token == 0)
    then (p, error invalid)
    else if p.shutting_down
    then (p, error (closed_error p))
    else if not (p.reserved_producer_token == 0) || p.writer_active
    then (p, error misused)
    else (record p { next_producer_token = token; reserved_producer_token = token }, value token)

unfoldable pub release_producer : ℕ → SharedFrameBusPublisherState → SharedFrameBusPublisherState
unfolding cancel_write
release_producer producer_token p =
    let cancelled = if p.writer_active then cancel_write p.writer_slot p.writer_token p else p in
    if producer_token == 0 || not (p.reserved_producer_token == producer_token)
    then p
    else record cancelled { reserved_producer_token = 0 }

-- `commit` of `SharedFrameBusPublisher`, with a lease of this bus.
unfoldable pub commit :
    SharedFrameBusWriteLease
    → DeviceReading
    → SharedFrameBusFrameMetadata
    → SharedFrameBusFrameSideData
    → SharedFrameBusPublisherState
    → SharedFrameBusPublisherState × GpuError
unfolding commit_write
commit lease d metadata side_data p =
    commit_write lease.slot lease.token true d metadata side_data p

unfoldable pub commit_reserved :
    ℕ
    → SharedFrameBusWriteLease
    → DeviceReading
    → SharedFrameBusFrameMetadata
    → SharedFrameBusFrameSideData
    → SharedFrameBusPublisherState
    → SharedFrameBusPublisherState × GpuError
unfolding cancel_write commit_write
commit_reserved producer_token lease d metadata side_data p =
    if producer_token == 0 || not (p.reserved_producer_token == producer_token)
    then (cancel_write lease.slot lease.token p, misused)
    else commit_write lease.slot lease.token true d metadata side_data p

-- `reset` of a lease of this bus.
unfoldable pub reset_lease :
    SharedFrameBusWriteLease → SharedFrameBusPublisherState → SharedFrameBusPublisherState
unfolding cancel_write
reset_lease lease p = if lease.token == 0 then p else cancel_write lease.slot lease.token p

unfoldable pub check_side_channel : ℕ → SharedFrameBusPublisherState → Result (Unit {0})
unfolding closed_error
check_side_channel producer_token p = do
  refuse p.shutting_down (closed_error p)
  refuse (wrong_producer producer_token p) misused

-- `cursor_next_slot ^= 1u` on 0 and 1.
abbrev pub other_slot : ℕ → ℕ
other_slot slot = if slot == 0 then 1 else 0

unfoldable pub check_shape : ℕ → WgcCursorShape → SharedFrameBusPublisherState → Result (Unit {0})
unfolding check_side_channel validate_cursor_shape
check_shape producer_token shape p = do
  check_side_channel producer_token p
  validate_cursor_shape shape
  refuse (leb (u64_max - 2) p.cursor_commit_sequence) (make_error system_error e_unexpected)

unfoldable pub store_shape :
    WgcCursorShape → SharedFrameBusPublisherState → SharedFrameBusPublisherState
store_shape shape p =
    let committed = p.cursor_commit_sequence + 1 + 1 in
    record p {
      cursor_shapes =
          set p.cursor_shapes p.cursor_next_slot
            (record { commit_sequence = committed; shape = shape });
      cursor_commit_sequence = committed;
      cursor_next_slot = other_slot p.cursor_next_slot;
    }

unfoldable pub shape_checked :
    Result (Unit {0})
    → WgcCursorShape
    → SharedFrameBusPublisherState
    → SharedFrameBusPublisherState × GpuError
unfolding store_shape
shape_checked (error e) shape p = (p, e)
shape_checked (value done) shape p = (store_shape shape p, success)

unfoldable pub publish_cursor_shape :
    ℕ → WgcCursorShape → SharedFrameBusPublisherState → SharedFrameBusPublisherState × GpuError
unfolding check_shape shape_checked
publish_cursor_shape producer_token shape p =
    shape_checked (check_shape producer_token shape p) shape p

abbrev pub move_result_slots : ℕ
move_result_slots = 16

unfoldable pub check_move_result :
    ℕ → SharedFrameBusMoveResult → SharedFrameBusPublisherState → Result SharedFrameBusMoveResult
unfolding check_side_channel normalize_move_result
check_move_result producer_token input p = do
  check_side_channel producer_token p
  r ← normalize_move_result input p.config.width p.config.height
  refuse (ltb p.sequence r.sequence) invalid
  refuse (leb r.sequence p.last_move_result_sequence) invalid
  refuse (leb (u64_max - 2) p.move_result_commit_sequence) (make_error system_error e_unexpected)
  value r

unfoldable pub store_move_result :
    SharedFrameBusMoveResult → SharedFrameBusPublisherState → SharedFrameBusPublisherState
store_move_result r p =
    let committed = p.move_result_commit_sequence + 1 + 1 in
    let t = p.statistics in
    let old =
      get_or p.move_results p.move_result_next_slot (record { commit_sequence = 0; payload = r }) in
    record p {
      move_results =
          set p.move_results p.move_result_next_slot
            (record { commit_sequence = committed; payload = r });
      move_result_commit_sequence = committed;
      last_move_result_sequence = r.sequence;
      move_result_next_slot = u32 (p.move_result_next_slot + 1) % move_result_slots;
      statistics = record t {
        move_results_published = u64 (t.move_results_published + 1);
        move_result_overwrites =
            if old.commit_sequence == 0
            then t.move_result_overwrites
            else u64 (t.move_result_overwrites + 1);
      };
    }

unfoldable pub moves_checked :
    Result SharedFrameBusMoveResult
    → SharedFrameBusPublisherState
    → SharedFrameBusPublisherState × GpuError
unfolding store_move_result
moves_checked (error e) p = (p, e)
moves_checked (value r) p = (store_move_result r p, success)

unfoldable pub publish_move_result :
    ℕ
    → SharedFrameBusMoveResult
    → SharedFrameBusPublisherState
    → SharedFrameBusPublisherState × GpuError
unfolding check_move_result moves_checked
publish_move_result producer_token input p =
    moves_checked (check_move_result producer_token input p) p
