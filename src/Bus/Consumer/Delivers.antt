-- ===== src/Bus/Consumer/Delivers.antt =====
-- A frame that has been published is delivered.
use fluxcap.Prelude.{
  ℕ, suc, ◌+◌, ◌-◌, ◌^◌, ◌≤◌, ◌<◌, ◌≡◌, ◌≢◌, ◌⊎◌, refl, ap, sym, subst, ◌∙◌, Bool, true, false, not,
  ◌&&◌, ◌||◌, ◌==◌, ltb, leb, List, [], ◌∷◌, length, get_elem?, map, if◌then◌else◌, Option, none,
  some, All, All-get, arith, inl, inr, some_inj, ==_iff, or_false,
}
use fluxcap.Gpu.{value}
use fluxcap.Bus.Metadata.Normal.{normalize_metadata-again}
use fluxcap.Bus.Control.{Slot, ConsumerControl, slot_unavailable, reads}
use fluxcap.Bus.Publisher.{SharedFrameBusPublisherState, SharedFrameBusConfig}
use fluxcap.Bus.Publisher.Sweep.{has_failed}
use fluxcap.Bus.Publisher.Slots.{SlotIsValid}
use fluxcap.Bus.Publisher.Invariant.{IsValid}
use fluxcap.Bus.Consumer.{
  SharedFrameBusConsumerState, SharedPage, registration_active, enter_consumer_access,
}
use fluxcap.Bus.Consumer.Acquire.{
  SlotReading, AcquireRound, AcquireOutcome, newest_available, read_frame, read_payload,
  has_acquisition, keep_acquisition, acquire_read, try_acquire, acquire_at, acquire_candidate,
  end_of_scan, acquire_running, acquire_watched, acquire_entered, acquire_round,
}

-- What the scan reads of a slot that nobody changes meanwhile.
abbrev pub reading_of : Slot → SlotReading
reading_of s = record { available = not (slot_unavailable s.ownership); sequence = s.sequence }

-- The scan has kept its candidate, or has found a newer one in the list, and nothing available in the
-- list is newer than what it has.
pub record Newest (slot : ℕ) (ss : List Slot) (newest : ℕ) (candidate : Option ℕ)
    (out : Option ℕ × ℕ) : Type 0 where
  pub rises : newest ≤ out.1
  pub all : All (λ s. slot_unavailable s.ownership ≡ false → s.sequence ≤ out.1) ss
  pub found :
      ((out.0 ≡ candidate) × (out.1 ≡ newest))
      ⊎ ((i : ℕ) × (s : Slot) × (out.0 ≡ some (slot + i))
          × (get_elem? ss i ≡ some s)
          × (slot_unavailable s.ownership ≡ false)
          × (s.sequence ≡ out.1)
          × (newest < out.1))

module _ (slot : ℕ) (s : Slot) (ss : List Slot) (newest : ℕ) (candidate : Option ℕ)
    (ih : (n : ℕ) (c : Option ℕ)
      → Newest (suc slot) ss n c (newest_available (suc slot) (map reading_of ss) n c)) where
  scan_step :
      (better : Bool)
      → (not (slot_unavailable s.ownership) && ltb newest s.sequence) ≡ better
      → Newest slot (s ∷ ss) newest candidate (
          newest_available
            (suc slot)
            (map reading_of ss)
            (if better then s.sequence else newest)
            (if better then some slot else candidate))
  scan_step true e =
      let there : slot_unavailable s.ownership ≡ false = ground (arith, e) in
      let newer : newest < s.sequence = ground (arith, e) in
      let rest = ih s.sequence (some slot) in
      record {
        rises = omega (arith, newer, rest.rises);
        all = (λ _. rest.rises, rest.all);
        found = inr (elim rest.found [
          | inl (kept, same) ↦ (
            0,
            s,
            kept ∙ ap some (omega arith),
            refl,
            there,
            sym same,
            omega (arith, newer, same),
          )
          | inr (i, t, at, is, free, number, above) ↦
              (suc i, t, at ∙ ap some (omega arith), is, free, number, omega (arith, newer, above))
        ]);
      }
  scan_step false e =
      let rest = ih newest candidate in
      record {
        rises = rest.rises;
        all = (
          λ free.
              let older : s.sequence ≤ newest = ground (arith, e, free) in
              omega (arith, older, rest.rises),
          rest.all,
        );
        found = elim rest.found [
          | inl kept ↦ inl kept
          | inr (i, t, at, is, free, number, above) ↦
              inr (suc i, t, at ∙ ap some (omega arith), is, free, number, above)
        ];
      }

pub newest_available-Newest :
    (slot : ℕ) (ss : List Slot) (newest : ℕ) (candidate : Option ℕ)
    → Newest slot ss newest candidate (newest_available slot (map reading_of ss) newest candidate)
unfolding newest_available
newest_available-Newest slot [] newest candidate = record {
  rises = omega arith;
  all = tt;
  found = inl (refl, refl);
}
newest_available-Newest slot (s ∷ ss) newest candidate =
    scan_step slot s ss newest candidate (newest_available-Newest (suc slot) ss)
      (not (slot_unavailable s.ownership) && ltb newest s.sequence) refl

module _ (c : SharedFrameBusConfig) (sequence : ℕ) (slot : Slot) where
  read_frame-accepts :
      SlotIsValid c sequence slot
      → slot.sequence ≢ 0
      → read_frame 5 c.width c.height slot ≡ value (slot.metadata, slot.side_data)
  unfolding read_frame
  read_frame-accepts v published =
      let numbers = v.numbers published in
      let m =
        (normalize_metadata-again slot.metadata slot.metadata c.width c.height c.color_space true
          (v.metadata published)).1 in
      let d = v.side_data published in
      let fresh_m : (slot.metadata_sequence == slot.sequence) ≡ true = (==_iff _ _).1 numbers.0 in
      let fresh_d : (slot.side_data_sequence == slot.sequence) ≡ true = (==_iff _ _).1 numbers.1 in
      rw (fresh_m, m, fresh_d, d)

  -- The payload of a valid slot is what its reader gets.
  read_payload-accepts :
      (s : SharedFrameBusConsumerState)
      → s.protocol_version ≡ 5
      → s.width ≡ c.width
      → s.height ≡ c.height
      → SlotIsValid c sequence slot
      → slot.sequence ≢ 0
      → read_payload s slot ≡ value (slot.metadata, slot.side_data)
  unfolding read_payload
  read_payload-accepts s v5 w h v published = rw (v5, w, h) (read_frame-accepts v published)

-- The consumer may read: it is registered and open, and its access is not counted out.
pub record MayRead (s : SharedFrameBusConsumerState) (control : ConsumerControl) : Type 0 where
  pub protocol : s.protocol_version ≡ 5
  pub active : registration_active s control ≡ true
  pub counted : control.access_state.refs < 2 ^ 16 - 1
  pub wanted : s.close_requested ≡ false
  pub room : length s.acquisition_order < 8

-- A round that nothing disturbs: the publisher is there, the scan reads the slots as they are, and the
-- device takes the wait.
pub record Undisturbed (r : AcquireRound) (ss : List Slot) : Type 0 where
  pub publisher : r.publisher_gone ≡ none
  pub running : r.shutting_down ≡ false
  pub scan : r.seen ≡ map reading_of ss
  pub device : has_failed r.device.signal ≡ false

abbrev pub entered : ConsumerControl → ConsumerControl
entered c = record c { access_state = record c.access_state { refs = c.access_state.refs + 1 } }

enter-entered :
    (s : SharedFrameBusConsumerState) (c : ConsumerControl)
    → MayRead s c
    → enter_consumer_access s c ≡ some (entered c)
unfolding enter_consumer_access registration_active
enter-entered s c m = ground (arith, m.active, m.counted)

still_active :
    (s : SharedFrameBusConsumerState) (c : ConsumerControl)
    → registration_active s c ≡ true
    → registration_active s (entered c) ≡ true
unfolding registration_active
still_active s c h = h

acquire_read-keeps :
    (at : ℕ) (slot : Slot) (r : AcquireRound) (s : SharedFrameBusConsumerState) (page : SharedPage)
    → has_failed r.device.signal ≡ false
    → has_acquisition s.acquisitions at ≡ false
    → length s.acquisition_order < 8
    → acquire_read at slot r.device (value (slot.metadata, slot.side_data)) s page
      ≡ keep_acquisition at slot slot.metadata slot.side_data s page
unfolding acquire_read
acquire_read-keeps at slot r s page device unheld room =
    let fits : leb 8 (length s.acquisition_order) ≡ false = ground (arith, room) in
    let kept : (has_acquisition s.acquisitions at || leb 8 (length s.acquisition_order)) ≡ false =
      or_false _ _ unheld fits in
    rw (device, kept)

chosen_lem :
    (sequence newest observed : ℕ)
    → sequence ≡ newest
    → observed < newest
    → (not (sequence == newest) || leb sequence observed) ≡ false
chosen_lem sequence newest observed same newer = ground arith

try_acquire-keeps :
    (at newest : ℕ) (slot : Slot) (r : AcquireRound) (s : SharedFrameBusConsumerState)
    (page : SharedPage)
    → slot_unavailable slot.ownership ≡ false
    → reads slot.ownership s.consumer_index ≡ false
    → slot.sequence ≡ newest
    → s.observed_sequence < newest
    → registration_active s page.control ≡ true
    → read_payload s slot ≡ value (slot.metadata, slot.side_data)
    → has_failed r.device.signal ≡ false
    → has_acquisition s.acquisitions at ≡ false
    → length s.acquisition_order < 8
    → try_acquire at newest slot r.device s page
      ≡ some (keep_acquisition at slot slot.metadata slot.side_data s page)
unfolding try_acquire
try_acquire-keeps at newest slot r s page free unread number newer active payload device unheld
      room =
    let open_slot = or_false (slot_unavailable slot.ownership) _ free unread in
    let chosen = chosen_lem slot.sequence newest s.observed_sequence number newer in
    rw (open_slot, chosen, active, payload, acquire_read-keeps at slot r s page device unheld room)

-- What a consumer has not seen yet it does not hold, and the word has a bit for it.
abbrev pub HoldsOnlySeen : SharedFrameBusConsumerState → List Slot → Type 0
HoldsOnlySeen s ss =
    (i : ℕ) (t : Slot)
    → get_elem? ss i ≡ some t
    → s.observed_sequence < t.sequence
    → (reads t.ownership s.consumer_index ≡ false)
      × (has_acquisition s.acquisitions i ≡ false)
      × (s.consumer_index < length t.ownership.readers)

-- The newest frame that may be read is kept, with the payload of its slot.
pub record Keeps (s : SharedFrameBusConsumerState) (page : SharedPage) (out : Option AcquireOutcome)
    : Type 0 where
  pub at : ℕ
  pub slot : Slot
  pub there : get_elem? page.slots at ≡ some slot
  pub available : slot_unavailable slot.ownership ≡ false
  pub newest :
      All (λ t. slot_unavailable t.ownership ≡ false → t.sequence ≤ slot.sequence) page.slots
  pub newer : s.observed_sequence < slot.sequence
  pub kept :
      out
      ≡ some (
          keep_acquisition at slot slot.metadata slot.side_data s
            (record page { control = entered page.control }))

module _ (p : SharedFrameBusPublisherState) (s : SharedFrameBusConsumerState) (r : AcquireRound)
    (page : SharedPage) where
  running-Keeps :
      IsValid p
      → page.slots ≡ p.slots
      → s.width ≡ p.config.width
      → s.height ≡ p.config.height
      → MayRead s page.control
      → Undisturbed r page.slots
      → HoldsOnlySeen s page.slots
      → (i : ℕ) (t : Slot) → get_elem? page.slots i ≡ some t
      → slot_unavailable t.ownership ≡ false
      → s.observed_sequence < t.sequence
      → (out : Option ℕ × ℕ)
      → newest_available 0 (map reading_of page.slots) s.observed_sequence none ≡ out
      → Newest 0 page.slots s.observed_sequence none out
      → Keeps s page (
          end_of_scan
            (acquire_candidate out r.device s (record page { control = entered page.control }))
            s
            (record page { control = entered page.control }))
  unfolding end_of_scan acquire_candidate acquire_at
  running-Keeps v same w h m u holds i t at free newer (none, q) is n = elim n.found [
    | inl (_, none_newer) ↦
        let seen =
          All-get (λ (x : Slot). slot_unavailable x.ownership ≡ false → x.sequence ≤ q) page.slots i
            n.all at free in
        absurd (omega (arith, seen, none_newer, newer))
    | inr (_, _, found, _, _, _, _) ↦ cc
  ]
  running-Keeps v same w h m u holds i t at free newer (some k, q) is n = elim n.found [
    | inl (nothing, _) ↦ cc
    | inr (j, slot, found, there, open_slot, number, above) ↦
        let here : k ≡ j = some_inj found ∙ omega arith in
        let fresh : s.observed_sequence < slot.sequence = omega (arith, number, above) in
        let mine = holds j slot there fresh in
        let valid = v.0.each j slot (rw (sym same) there) in
        let payload =
          read_payload-accepts p.config p.sequence slot s m.protocol w h valid
            (λ z. absurd (omega (arith, z, fresh))) in
        record {
          at = j;
          slot = slot;
          there = there;
          available = open_slot;
          newest =
              subst
                (λ z. All (λ x. slot_unavailable x.ownership ≡ false → x.sequence ≤ z) page.slots)
                (sym number) n.all;
          newer = fresh;
          kept =
              rw (here, there)
                (ap (λ o. end_of_scan o s (record page { control = entered page.control }))
                  (try_acquire-keeps j q slot r s (record page { control = entered page.control })
                    open_slot mine.0 number above (still_active s page.control m.active) payload
                    u.device mine.1 m.room));
        }
  ]

  -- The round keeps the newest frame that may be read.
  pub acquire_round-Keeps :
      IsValid p
      → page.slots ≡ p.slots
      → s.width ≡ p.config.width
      → s.height ≡ p.config.height
      → MayRead s page.control
      → Undisturbed r page.slots
      → HoldsOnlySeen s page.slots
      → (i : ℕ) (t : Slot) → get_elem? page.slots i ≡ some t
      → slot_unavailable t.ownership ≡ false
      → s.observed_sequence < t.sequence
      → Keeps s page (acquire_round r s page)
  unfolding acquire_round acquire_entered acquire_watched acquire_running
  acquire_round-Keeps v same w h m u holds i t at free newer =
      let out = newest_available 0 (map reading_of page.slots) s.observed_sequence none in
      let n = newest_available-Newest 0 page.slots s.observed_sequence none in
      let delivered = running-Keeps v same w h m u holds i t at free newer out refl n in
      rw (enter-entered s page.control m)
        (simp (m.wanted, u.publisher, u.running, u.scan) delivered)
