-- ===== src/Bus/SideData/Normal.antt =====
-- Which side data is normalized, and what normalizing it again gives.
use fluxcap.Prelude.{
  ℕ, ◌≤◌, ◌<◌, ◌≡◌, ◌≢◌, ◌↔◌, ◌⊎◌, refl, ap, sym, inl, inr, Bool, true, false, not, leb,
  if◌then◌else◌, All, take, get_or, Bool-cases, arith,
}
use fluxcap.Prelude.Int.{pos}
use fluxcap.Gpu.{not-false, refuse_value, >>=-eq-value, value, invalid, refuse_iff}
use fluxcap.Geometry.Rect.{no_rect}
use fluxcap.Bus.Metadata.{has_flag}
use fluxcap.Bus.Rects.{
  valid_bus_rect, valid_bus_move, all_valid, InFrame, MoveInFrame, valid_bus_rect-InFrame,
  valid_bus_move-MoveInFrame, all_valid-All,
}
use fluxcap.Bus.SideData.{
  WgcFrameDamage, WgcCursorInfo, SharedFrameBusFrameSideData, side_data_size, damage_valid,
  damage_native, damage_full_frame, native_move_unavailable, inferred_move, native_move_available,
  position_valid, position_estimated, shape_pending, bad_side_data_header, bad_inactive,
  bad_full_frame, bad_provenance, bad_base, check_active, check_damage, bad_estimate, bad_shape,
  copy_counted_rects, normalize_side_data,
}

abbrev Has : ℕ → ℕ → Type 0
Has flags bit = has_flag flags bit ≡ true

-- Where the moves come from, as the protocol asks.
pub record Provenance (d : WgcFrameDamage) (v5 : Bool) (frame_sequence : ℕ) : Type 0 where
  pub native :
      v5 ≡ true
      → Has d.flags native_move_available
      → Has d.flags damage_native
        × (has_flag d.flags native_move_unavailable ≡ false)
        × (has_flag d.flags inferred_move ≡ false)
  pub stated :
      d.move_count ≢ 0
      → Has d.flags inferred_move ⊎ ((v5 ≡ true) × Has d.flags native_move_available)
  pub inferred : v5 ≡ true → Has d.flags inferred_move → d.move_count ≢ 0
  pub earlier :
      v5 ≡ true
      → frame_sequence ≢ 0
      → (d.base_sequence < frame_sequence) × (d.move_count ≢ 0 → d.base_sequence ≢ 0)

module _ (d : WgcFrameDamage) where
  inactive_lem :
      (bad_inactive d ≡ false)
      ↔ ((d.base_sequence ≡ 0) × (d.dirty_count ≡ 0) × (d.move_count ≡ 0) × (d.flags ≡ 0))
  unfolding bad_inactive
  inactive_lem = ground arith

  full_frame_lem :
      (w h : ℕ)
      → (bad_full_frame d w h ≡ false) ↔ (
          Has d.flags damage_full_frame
          → (d.dirty_count ≡ 1)
            × (get_or d.dirty_rects 0 no_rect
                ≡ record { x = pos 0; y = pos 0; width = w; height = h }))
  unfolding bad_full_frame
  full_frame_lem w h = ground arith

  provenance_lem :
      (v5 : Bool) (frame_sequence : ℕ)
      → ((bad_provenance d v5 ≡ false) × (bad_base d v5 frame_sequence ≡ false))
        ↔ Provenance d v5 frame_sequence
  unfolding bad_provenance bad_base
  provenance_lem true frame_sequence = ground arith
  provenance_lem false frame_sequence = ground arith

-- Damage that is marked valid, of a frame of this size.
pub record Active (d : WgcFrameDamage) (w h : ℕ) (v5 : Bool) (frame_sequence : ℕ) : Type 0 where
  pub full_frame :
      Has d.flags damage_full_frame
      → (d.dirty_count ≡ 1)
        × (get_or d.dirty_rects 0 no_rect ≡ record { x = pos 0; y = pos 0; width = w; height = h })
  pub provenance : Provenance d v5 frame_sequence
  pub dirty : All (λ r. InFrame r w h) (take d.dirty_count d.dirty_rects)
  pub moves : All (λ m. MoveInFrame m w h) (take d.move_count d.move_rects)

pub record ShapeOfCursor (c : WgcCursorInfo) : Type 0 where
  pub estimate : Has c.flags position_estimated → Has c.flags position_valid
  pub no_shape :
      c.shape_sequence ≡ 0
      → (c.width ≡ 0)
        × (c.height ≡ 0)
        × (c.hotspot_x ≡ 0)
        × (c.hotspot_y ≡ 0)
        × (has_flag c.flags shape_pending ≡ false)
  pub shape :
      c.shape_sequence ≢ 0 → has_flag c.flags shape_pending ≡ false → (c.width ≢ 0) × (c.height ≢ 0)
  pub hotspot :
      c.shape_sequence ≢ 0 → c.width ≢ 0 → (c.hotspot_x < c.width) × (c.hotspot_y < c.height)

module _ (d : WgcFrameDamage) (w h : ℕ) (v5 : Bool) (frame_sequence : ℕ) where
  active_lem : (check_active d w h v5 frame_sequence ≡ value tt) ↔ Active d w h v5 frame_sequence
  unfolding check_active
  active_lem =
      let rects =
        all_valid-All (λ r. InFrame r w h) (λ r. valid_bus_rect r w h)
          (λ r. valid_bus_rect-InFrame r w h) d.dirty_count d.dirty_rects in
      let moves =
        all_valid-All (λ m. MoveInFrame m w h) (λ m. valid_bus_move m w h)
          (λ m. valid_bus_move-MoveInFrame m w h) d.move_count d.move_rects in
      (
        λ e.
            let (a, e1) = (refuse_iff (bad_full_frame d w h) invalid _).0 e in
            let (b, e2) = (refuse_iff (bad_provenance d v5) invalid _).0 e1 in
            let (c, e3) = (refuse_iff (bad_base d v5 frame_sequence) invalid _).0 e2 in
            let (f, e4) =
              (refuse_iff (not (all_valid (λ r. valid_bus_rect r w h) d.dirty_count d.dirty_rects))
                  invalid _).0
                e3 in
            let (g, e5) =
              (refuse_iff (not (all_valid (λ m. valid_bus_move m w h) d.move_count d.move_rects))
                  invalid _).0
                e4 in
            record {
              full_frame = (full_frame_lem d w h).0 a;
              provenance = (provenance_lem d v5 frame_sequence).0 (b, c);
              dirty = rects.0 ((not-false _).0 f);
              moves = moves.0 ((not-false _).0 g);
            },
        λ a.
            let p = (provenance_lem d v5 frame_sequence).1 a.provenance in
            rw ((full_frame_lem d w h).1 a.full_frame, p.0, p.1, rects.1 a.dirty, moves.1 a.moves),
      )

  damage_lem : (check_damage d w h v5 frame_sequence ≡ value tt) ↔ (
      (has_flag d.flags damage_valid ≡ false
        → (d.base_sequence ≡ 0) × (d.dirty_count ≡ 0) × (d.move_count ≡ 0) × (d.flags ≡ 0))
      × (Has d.flags damage_valid → Active d w h v5 frame_sequence))
  unfolding check_damage
  damage_lem = elim (Bool-cases (has_flag d.flags damage_valid)) [
    | inl on ↦ rw on (λ e. (λ off. cc, λ _. active_lem.0 e), λ h. active_lem.1 (h.1 refl))
    | inr off ↦ rw off (
      λ e. (λ _. (inactive_lem d).0 ((refuse_value _ invalid).0 e), λ on. cc),
      λ h. (refuse_value _ invalid).1 ((inactive_lem d).1 (h.0 refl)),
    )
  ]

module _ (c : WgcCursorInfo) where
  cursor_lem : ((bad_estimate c ≡ false) × (bad_shape c ≡ false)) ↔ ShapeOfCursor c
  unfolding bad_estimate bad_shape
  cursor_lem = (
    λ e. record {
      estimate = ground arith;
      no_shape = ground arith;
      shape = ground arith;
      hotspot = ground arith;
    },
    λ s. (ground (arith, s.estimate), ground (arith, s.no_shape, s.shape, s.hotspot)),
  )

module _ (s : SharedFrameBusFrameSideData) where
  header_lem :
      (v5 : Bool)
      → (bad_side_data_header s v5 ≡ false) ↔ (
          (s.structure_size ≡ side_data_size)
          × (s.side_data_version ≡ 1)
          × (s.reserved ≡ 0)
          × (s.damage.reserved ≡ 0)
          × (s.cursor.reserved ≡ 0)
          × ((s.epoch ≡ 0) ↔ (s.epoch_nonce ≡ 0))
          × (s.damage.flags ≤ (if v5 then 511 else 255))
          × (s.cursor.flags ≤ 15)
          × (s.damage.dirty_count ≤ 64)
          × (s.damage.move_count ≤ 16))
  unfolding bad_side_data_header
  header_lem true = ground arith
  header_lem false = ground arith

-- What the header asks of the side data of a frame on a bus of this size.
pub record Acceptable (s : SharedFrameBusFrameSideData) (w h : ℕ) (v5 : Bool) (frame_sequence : ℕ)
    : Type 0 where
  pub layout : (s.structure_size ≡ side_data_size) × (s.side_data_version ≡ 1)
  pub reserved : (s.reserved ≡ 0) × (s.damage.reserved ≡ 0) × (s.cursor.reserved ≡ 0)
  pub epoch : (s.epoch ≡ 0) ↔ (s.epoch_nonce ≡ 0)
  pub flags : (s.damage.flags ≤ (if v5 then 511 else 255)) × (s.cursor.flags ≤ 15)
  pub counts : (s.damage.dirty_count ≤ 64) × (s.damage.move_count ≤ 16)
  pub inactive :
      has_flag s.damage.flags damage_valid ≡ false
      → (s.damage.base_sequence ≡ 0)
        × (s.damage.dirty_count ≡ 0)
        × (s.damage.move_count ≡ 0)
        × (s.damage.flags ≡ 0)
  pub active : Has s.damage.flags damage_valid → Active s.damage w h v5 frame_sequence
  pub cursor : ShapeOfCursor s.cursor

-- Side data is accepted exactly when it is acceptable: the header, the flags and counts, the full
-- frame, the provenance of moves and the base, every counted rectangle and move inside the frame, the
-- cursor and its hot spot. What comes out has its counted entries and no others.
pub normalize_side_data-Acceptable :
    (s out : SharedFrameBusFrameSideData) (w h protocol_version frame_sequence : ℕ)
    → (normalize_side_data s w h protocol_version frame_sequence ≡ value out)
      ↔ (Acceptable s w h (leb 5 protocol_version) frame_sequence × (out ≡ copy_counted_rects s))
unfolding normalize_side_data
normalize_side_data-Acceptable s out w h version frame_sequence =
    let v5 = leb 5 version in
    let damage = damage_lem s.damage w h v5 frame_sequence in
    (
      λ e.
          let (a, e1) = (refuse_iff (bad_side_data_header s v5) invalid _).0 e in
          let (b, checked, e2) = >>=-eq-value (check_damage s.damage w h v5 frame_sequence) _ e1 in
          let (c, e3) = (refuse_iff (bad_estimate s.cursor) invalid _).0 e2 in
          let (d, e4) = (refuse_iff (bad_shape s.cursor) invalid _).0 e3 in
          let p = (header_lem s v5).0 a in
          let q = damage.0 checked in
          (
            record {
              layout = (p.0, p.1);
              reserved = (p.2, p.3, p.4);
              epoch = p.5;
              flags = (p.6, p.7);
              counts = (p.8, p.9);
              inactive = q.0;
              active = q.1;
              cursor = (cursor_lem s.cursor).0 (c, d);
            },
            cc e4,
          ),
      λ (a, e).
          let c = (cursor_lem s.cursor).1 a.cursor in
          rw
            (
              (header_lem s v5).1 (
                a.layout.0, a.layout.1, a.reserved.0, a.reserved.1, a.reserved.2, a.epoch,
                a.flags.0, a.flags.1, a.counts.0, a.counts.1,
              ),
              damage.1 (a.inactive, a.active),
              c.0,
              c.1,
            )
            (ap value (sym e)),
    )
