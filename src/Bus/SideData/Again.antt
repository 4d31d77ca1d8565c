-- ===== src/Bus/SideData/Again.antt =====
-- Side data that is normalized twice: by the call that publishes it and by its reader.
use fluxcap.Prelude.{
  ℕ, ◌≤◌, ◌≡◌, refl, sym, ◌∙◌, subst, Bool, leb, List, [], ◌∷◌, length, get_or, All, arith,
}
use fluxcap.Gpu.{value}
use fluxcap.Geometry.Rect.{WgcRect, no_rect}
use fluxcap.Bus.Rects.{
  copy_counted, take-copy_counted, copy_counted-twice, length-copy_counted, InFrame, MoveInFrame,
}
use fluxcap.Bus.SideData.{
  SharedFrameBusFrameSideData, empty_move, copy_counted_rects, normalize_side_data,
}
use fluxcap.Bus.SideData.Normal.{Active, Acceptable, normalize_side_data-Acceptable}

-- The arrays have as many entries as the header declares.
abbrev pub FullArrays : SharedFrameBusFrameSideData → Type 0
FullArrays s = (length s.damage.dirty_rects ≡ 64) × (length s.damage.move_rects ≡ 16)

first-copy_counted :
    (size : ℕ) (fresh d : WgcRect) (n : ℕ) (xs : List WgcRect)
    → n ≡ 1
    → n ≤ length xs
    → get_or (copy_counted size n fresh xs) 0 d ≡ get_or xs 0 d
unfolding copy_counted
first-copy_counted size fresh d n [] e h = absurd (omega arith)
first-copy_counted size fresh d n (x ∷ xs) e h = rw e

module _ (s : SharedFrameBusFrameSideData) (full : FullArrays s) where
  copy-twice :
      s.damage.dirty_count ≤ 64
      → s.damage.move_count ≤ 16
      → copy_counted_rects (copy_counted_rects s) ≡ copy_counted_rects s
  unfolding copy_counted_rects
  copy-twice d m =
      let dirty =
        copy_counted-twice 64 s.damage.dirty_count no_rect s.damage.dirty_rects (omega arith) in
      let moves =
        copy_counted-twice 16 s.damage.move_count empty_move s.damage.move_rects (omega arith) in
      rw (dirty, moves)

  copy-Active :
      (w h : ℕ) (v5 : Bool) (frame_sequence : ℕ)
      → s.damage.dirty_count ≤ 64
      → s.damage.move_count ≤ 16
      → Active s.damage w h v5 frame_sequence
      → Active (copy_counted_rects s).damage w h v5 frame_sequence
  unfolding copy_counted_rects
  copy-Active w h v5 q d m a = record {
    full_frame = λ on.
        let (one, first) = a.full_frame on in
        (
          one,
          first-copy_counted 64 no_rect no_rect s.damage.dirty_count s.damage.dirty_rects one
                (omega arith)
              ∙ first,
        );
    provenance = record {
      native = a.provenance.native;
      stated = a.provenance.stated;
      inferred = a.provenance.inferred;
      earlier = a.provenance.earlier;
    };
    dirty =
        subst (All (λ r. InFrame r w h))
          (sym
            (take-copy_counted 64 s.damage.dirty_count no_rect s.damage.dirty_rects (omega arith)))
          a.dirty;
    moves =
        subst (All (λ r. MoveInFrame r w h))
          (sym
            (take-copy_counted 16 s.damage.move_count empty_move s.damage.move_rects (omega arith)))
          a.moves;
  }

  copy-Acceptable :
      (w h : ℕ) (v5 : Bool) (frame_sequence : ℕ)
      → Acceptable s w h v5 frame_sequence
      → Acceptable (copy_counted_rects s) w h v5 frame_sequence
  unfolding copy_counted_rects
  copy-Acceptable w h v5 q a = record {
    layout = (refl, refl);
    reserved = (refl, refl, a.reserved.2);
    epoch = a.epoch;
    flags = a.flags;
    counts = a.counts;
    inactive = a.inactive;
    active = λ on. copy-Active w h v5 q a.counts.0 a.counts.1 (a.active on);
    cursor = a.cursor;
  }

-- What has been normalized is normal: with the same size, protocol and sequence number it is
-- accepted again, as it is, when the arrays of the input have all their entries.
pub normalize_side_data-again :
    (s out : SharedFrameBusFrameSideData) (w h protocol_version frame_sequence : ℕ)
    → FullArrays s
    → normalize_side_data s w h protocol_version frame_sequence ≡ value out
    → normalize_side_data out w h protocol_version frame_sequence ≡ value out
normalize_side_data-again s out w h version q full e =
    let (a, copied) = (normalize_side_data-Acceptable s out w h version q).0 e in
    let again =
      normalize_side_data-Acceptable (copy_counted_rects s) (copy_counted_rects s) w h version q in
    rw copied (
      again.1 (
        copy-Acceptable s full w h (leb 5 version) q a,
        sym (copy-twice s full a.counts.0 a.counts.1),
      ))

-- The arrays that come out have all their entries.
pub normalize_side_data-FullArrays :
    (s out : SharedFrameBusFrameSideData) (w h protocol_version frame_sequence : ℕ)
    → FullArrays s
    → normalize_side_data s w h protocol_version frame_sequence ≡ value out
    → FullArrays out
unfolding copy_counted_rects
normalize_side_data-FullArrays s out w h version q full e =
    let (a, copied) = (normalize_side_data-Acceptable s out w h version q).0 e in
    let dirty =
      length-copy_counted 64 s.damage.dirty_count no_rect s.damage.dirty_rects
        (omega (arith, full.0, a.counts.0)) a.counts.0 in
    let moves =
      length-copy_counted 16 s.damage.move_count empty_move s.damage.move_rects
        (omega (arith, full.1, a.counts.1)) a.counts.1 in
    subst FullArrays (sym copied) (dirty, moves)
