-- ===== src/Bus/Control.antt =====
-- The control page of the bus: the words of the slots and of the consumers. A word of bits is the
-- record of its bits; each atomic operation of the source sets, clears or compares some of them.
use fluxcap.Prelude.{
  ℕ, ◌%◌, ◌^◌, Bool, true, false, not, ◌&&◌, ◌||◌, ◌==◌, List, [], ◌∷◌, get_or, set, if◌then◌else◌,
}
use fluxcap.Bus.Metadata.{SharedFrameBusFrameMetadata}
use fluxcap.Bus.SideData.{SharedFrameBusFrameSideData}
use fluxcap.Bus.MoveResult.{SharedFrameBusMoveResult}
use fluxcap.Bus.CursorShape.{WgcCursorShape}

-- `writer_bit`, `quarantine_bit`, and a bit for each consumer.
pub record Ownership : Type 0 where
  pub writer : Bool
  pub quarantined : Bool
  pub readers : List Bool

abbrev pub any : List Bool → Bool
any [] = false
any (b ∷ bs) = b || any bs

-- `ownership == 0`.
unfoldable pub is_free : Ownership → Bool
is_free o = not (o.writer || o.quarantined || any o.readers)

unfoldable pub slot_unavailable : Ownership → Bool
slot_unavailable o = o.writer || o.quarantined

abbrev pub reads : Ownership → ℕ → Bool
reads o index = get_or o.readers index false

-- `InterlockedAnd(&ownership, ~bit)`.
abbrev pub clear_reader : Ownership → ℕ → Ownership
clear_reader o index = record o { readers = set o.readers index false }

-- `InterlockedOr(&ownership, quarantine_bit)` and the reader's bit cleared after it.
abbrev pub quarantine_reader : Ownership → ℕ → Ownership
quarantine_reader o index = record o { quarantined = true; readers = set o.readers index false }

-- The entries of one slot in the arrays of the pages: the control word and the sequence number, the
-- metadata and the side data with theirs.
pub record Slot : Type 0 where
  pub sequence : ℕ
  pub ownership : Ownership
  pub metadata_sequence : ℕ
  pub metadata : SharedFrameBusFrameMetadata
  pub side_data_sequence : ℕ
  pub side_data : SharedFrameBusFrameSideData

-- The parts of `access_state`: 16 bits that count, the bit that is set while the access is open,
-- and 47 bits of the generation.
pub record AccessState : Type 0 where
  pub refs : ℕ
  pub is_open : Bool
  pub tag : ℕ

abbrev pub encode_access_tag : ℕ → ℕ
encode_access_tag generation = generation % 2 ^ 47

abbrev pub no_access : AccessState
no_access = record { refs = 0; is_open = false; tag = 0 }

pub record ConsumerControl : Type 0 where
  pub token : ℕ
  pub access_state : AccessState
  pub process_id : ℕ

-- The loop ends with the exchange that succeeds, or with a word that is closed or of another
-- generation: in both cases this is what the word has become.
unfoldable pub close_consumer_access : ConsumerControl → ℕ → ConsumerControl
close_consumer_access c expected_tag =
    let state = c.access_state in
    if state.tag == expected_tag && state.is_open
    then record c { access_state = record state { is_open = false } }
    else c

-- A slot of the cursor shapes or of the move results: its number is odd while it is written.
pub record CursorSlot : Type 0 where
  pub commit_sequence : ℕ
  pub shape : WgcCursorShape

pub record MoveSlot : Type 0 where
  pub commit_sequence : ℕ
  pub payload : SharedFrameBusMoveResult
