-- ===== src/Bus/Consumer/Lookup.antt =====
-- What a consumer asks for besides frames: the metadata and side data of a frame that it holds, and the
-- cursor shapes and move results that the publisher keeps for a while.
use fluxcap.Prelude.{
  ℕ, ◌%◌, Bool, not, ◌&&◌, ◌||◌, ◌==◌, ltb, List, [], ◌∷◌, length, get_elem?, if◌then◌else◌, Option,
  none, some,
}
use fluxcap.Gpu.{
  Result, value, error, ◌>>◌, refuse, invalid, misused, make_error, timeout, unsupported, e_notimpl,
  not_found,
}
use fluxcap.Bus.Metadata.{SharedFrameBusFrameMetadata}
use fluxcap.Bus.SideData.{SharedFrameBusFrameSideData}
use fluxcap.Bus.MoveResult.{SharedFrameBusMoveResult, normalize_move_result}
use fluxcap.Bus.CursorShape.{WgcCursorShape, validate_cursor_shape, max_cursor_shape_bytes}
use fluxcap.Bus.Control.{ConsumerControl}
use fluxcap.Bus.Consumer.{
  SharedFrameBusConsumerState, Acquisition, registration_active, no_acquisition,
}
use fluxcap.Bus.Consumer.Acquire.{corrupt}

-- The record of the frame that a lease names, or an empty one.
unfoldable pub acquired : ℕ → ℕ → SharedFrameBusConsumerState → Acquisition
acquired slot sequence s = elim (get_elem? s.acquisitions slot) [
  | none ↦ no_acquisition
  | some a ↦
      if ltb slot s.slot_count && a.active && a.sequence == sequence then a else no_acquisition
]

unfoldable pub metadata : ℕ → ℕ → SharedFrameBusConsumerState → SharedFrameBusFrameMetadata
unfolding acquired
metadata slot sequence s = (acquired slot sequence s).metadata

unfoldable pub side_data : ℕ → ℕ → SharedFrameBusConsumerState → SharedFrameBusFrameSideData
unfolding acquired
side_data slot sequence s = (acquired slot sequence s).side_data

-- What one attempt to read a slot of a cache meets: the commit number before and after the copy, the
-- copy, and whether its reserved bytes are zero.
pub record Attempt {ℓ} (A : Type ℓ) : Type ℓ where
  pub before : ℕ
  pub copied : A
  pub reserved_is_zero : Bool
  pub after : ℕ

-- Nothing is there, or it is being written.
abbrev pub unreadable : ℕ → Bool
unreadable before = before == 0 || before % 2 == 1

abbrev pub torn : ℕ → ℕ → Bool
torn before after = not (before == after) || after % 2 == 1

-- The attempts at a slot: `none` goes on to the next slot. The publisher may write while a slot is
-- read, and then it is read again, three times at most.
unfoldable pub read_move_slot :
    ℕ
    → ℕ
    → ℕ
    → ℕ
    → ℕ
    → List (Attempt SharedFrameBusMoveResult)
    → Option (Result SharedFrameBusMoveResult)
unfolding normalize_move_result
read_move_slot epoch epoch_nonce sequence width height [] = none
read_move_slot epoch epoch_nonce sequence width height (a ∷ attempts) =
    let rest = read_move_slot epoch epoch_nonce sequence width height attempts in
    if unreadable a.before
    then none
    else if torn a.before a.after
    then rest
    else if not (a.copied.epoch == epoch)
        || not (a.copied.epoch_nonce == epoch_nonce)
        || not (a.copied.sequence == sequence)
    then none
    else if not a.reserved_is_zero
    then some (error corrupt)
    else elim (normalize_move_result a.copied width height) [
      | error e ↦ some (error corrupt)
      | value r ↦ some (value r)
    ]

-- The first slot that has an answer.
abbrev pub first_answer {ℓ} : {A : Type ℓ} → Option A → A → A
first_answer none otherwise = otherwise
first_answer (some a) otherwise = a

unfoldable pub search_moves :
    ℕ
    → ℕ
    → ℕ
    → ℕ
    → ℕ
    → List (List (Attempt SharedFrameBusMoveResult))
    → Result SharedFrameBusMoveResult
unfolding read_move_slot
search_moves epoch epoch_nonce sequence width height [] = error (make_error timeout not_found)
search_moves epoch epoch_nonce sequence width height (slot ∷ slots) =
    first_answer (read_move_slot epoch epoch_nonce sequence width height slot)
      (search_moves epoch epoch_nonce sequence width height slots)

unfoldable pub move_result :
    ℕ
    → ℕ
    → ℕ
    → List (List (Attempt SharedFrameBusMoveResult))
    → SharedFrameBusConsumerState
    → ConsumerControl
    → Result SharedFrameBusMoveResult
unfolding registration_active search_moves
move_result epoch epoch_nonce sequence slots s control = do
  refuse (epoch == 0 || epoch_nonce == 0 || sequence == 0) invalid
  refuse (not (registration_active s control)) misused
  refuse (ltb s.protocol_version 4) (make_error unsupported e_notimpl)
  search_moves epoch epoch_nonce sequence s.width s.height slots

unfoldable pub read_shape_slot : ℕ → List (Attempt WgcCursorShape) → Option (Result WgcCursorShape)
unfolding validate_cursor_shape
read_shape_slot sequence [] = none
read_shape_slot sequence (a ∷ attempts) =
    let rest = read_shape_slot sequence attempts in
    if unreadable a.before || not (a.copied.sequence == sequence)
    then none
    else if torn a.before a.after
    then rest
    else if not a.reserved_is_zero || ltb max_cursor_shape_bytes (length a.copied.bytes)
    then some (error corrupt)
    else elim (validate_cursor_shape a.copied) [
      | error e ↦ some (error corrupt)
      | value done ↦ some (value a.copied)
    ]

unfoldable pub search_shapes : ℕ → List (List (Attempt WgcCursorShape)) → Result WgcCursorShape
unfolding read_shape_slot
search_shapes sequence [] = error (make_error timeout not_found)
search_shapes sequence (slot ∷ slots) =
    first_answer (read_shape_slot sequence slot) (search_shapes sequence slots)

unfoldable pub cursor_shape :
    ℕ
    → List (List (Attempt WgcCursorShape))
    → SharedFrameBusConsumerState
    → ConsumerControl
    → Result WgcCursorShape
unfolding registration_active search_shapes
cursor_shape sequence slots s control = do
  refuse (sequence == 0) invalid
  refuse (not (registration_active s control)) misused
  refuse (ltb s.protocol_version 3) (make_error timeout not_found)
  search_shapes sequence slots
