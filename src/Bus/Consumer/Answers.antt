-- ===== src/Bus/Consumer/Answers.antt =====
-- What a consumer may rely on when a look-up in the cache of move results answers.
use fluxcap.Prelude.{
  ℕ, suc, ◌%◌, false, get_elem?, ◌≡◌, refl, ap, ◌∙◌, true, not, ◌||◌, ◌==◌, ltb, List, [], ◌∷◌,
  length, none, some, arith, Bool-cases, Option-cases, All, inl, inr, ◌≢◌,
}
use fluxcap.Gpu.{
  Result-cases, not-false, value, error, refuse_iff, invalid, misused, make_error, unsupported,
  e_notimpl,
}
use fluxcap.Bus.MoveResult.{SharedFrameBusMoveResult, normalize_move_result, copy_counted_moves}
use fluxcap.Bus.MoveResult.Normal.{normalize_move_result-Acceptable, normalize_move_result-again}
use fluxcap.Bus.Control.{ConsumerControl}
use fluxcap.Bus.Consumer.{SharedFrameBusConsumerState, registration_active}
use fluxcap.Bus.Consumer.Acquire.{corrupt}
use fluxcap.Bus.Consumer.Lookup.{
  Attempt, unreadable, torn, read_move_slot, search_moves, move_result,
}

-- The result names this frame, and is normal.
pub record Matches (epoch epoch_nonce sequence width height : ℕ) (r : SharedFrameBusMoveResult)
    : Type 0 where
  pub key : (r.epoch ≡ epoch) × (r.epoch_nonce ≡ epoch_nonce) × (r.sequence ≡ sequence)
  pub normal : normalize_move_result r width height ≡ value r

-- An attempt whose copy is whole and answers with the result: something had been committed to the slot
-- before the copy was made, nothing was being written to it, neither then nor after it, and nothing was
-- committed meanwhile; the reserved bytes are zero, and the copy is the result in its normal form.
pub record Answers (epoch epoch_nonce sequence width height : ℕ)
    (a : Attempt SharedFrameBusMoveResult) (r : SharedFrameBusMoveResult) : Type 0 where
  pub committed : a.before ≢ 0
  pub at_rest : a.before % 2 ≡ 0
  pub undisturbed : a.after ≡ a.before
  pub reserved : a.reserved_is_zero ≡ true
  pub accepted : normalize_move_result a.copied width height ≡ value r
  pub matches : Matches epoch epoch_nonce sequence width height r

-- The copies have the entries of their arrays.
abbrev pub AreFull : List (Attempt SharedFrameBusMoveResult) → Type 0
AreFull attempts = All (λ a. length a.copied.move_rects ≡ 16) attempts

copied_key :
    (r out : SharedFrameBusMoveResult) (w h : ℕ)
    → normalize_move_result r w h ≡ value out
    → (out.epoch ≡ r.epoch) × (out.epoch_nonce ≡ r.epoch_nonce) × (out.sequence ≡ r.sequence)
unfolding copy_counted_moves
copied_key r out w h e =
    let (a, is) = (normalize_move_result-Acceptable r out w h).0 e in rw is (refl, refl, refl)

at_rest_lem :
    (before after : ℕ)
    → unreadable before ≡ false
    → torn before after ≡ false
    → (before ≢ 0) × (before % 2 ≡ 0) × (after ≡ before)
at_rest_lem before after h k = (ground (arith, h), ground (arith, h), ground (arith, k))

module _ (epoch epoch_nonce sequence width height : ℕ) where
  abbrev Answering : Attempt SharedFrameBusMoveResult → SharedFrameBusMoveResult → Type 0
  Answering a r = Answers epoch epoch_nonce sequence width height a r

  -- A copy that has passed every test.
  whole-Answers :
      (a : Attempt SharedFrameBusMoveResult) (r : SharedFrameBusMoveResult)
      → length a.copied.move_rects ≡ 16
      → unreadable a.before ≡ false
      → torn a.before a.after ≡ false
      → (not (a.copied.epoch == epoch)
          || not (a.copied.epoch_nonce == epoch_nonce)
          || not (a.copied.sequence == sequence))
        ≡ false
      → a.reserved_is_zero ≡ true
      → normalize_move_result a.copied width height ≡ value r
      → Answering a r
  whole-Answers a r full there whole same clean good =
      let (committed, at_rest, undisturbed) = at_rest_lem a.before a.after there whole in
      let (k1, k2, k3) = copied_key a.copied r width height good in
      let key : (a.copied.epoch ≡ epoch)
          × (a.copied.epoch_nonce ≡ epoch_nonce)
          × (a.copied.sequence ≡ sequence) =
        ground (arith, same) in
      record {
        committed = committed;
        at_rest = at_rest;
        undisturbed = undisturbed;
        reserved = clean;
        accepted = good;
        matches = record {
          key = (k1 ∙ key.0, k2 ∙ key.1, k3 ∙ key.2);
          normal = normalize_move_result-again a.copied r width height full good;
        };
      }

  read_move_slot-Answers :
      (attempts : List (Attempt SharedFrameBusMoveResult)) (r : SharedFrameBusMoveResult)
      → AreFull attempts
      → read_move_slot epoch epoch_nonce sequence width height attempts ≡ some (value r)
      → (j : ℕ) × (a : Attempt SharedFrameBusMoveResult) × (get_elem? attempts j ≡ some a)
        × Answering a r
  unfolding read_move_slot
  read_move_slot-Answers [] r full e = cc
  read_move_slot-Answers (a ∷ attempts) r full e = elim (Bool-cases (unreadable a.before)) [
    | inl empty ↦ let no : none ≡ some (value r) = rw empty at e in cc
    | inr there ↦ elim (Bool-cases (torn a.before a.after)) [
      | inl again ↦
          let (j, b, at_j, answer) =
            read_move_slot-Answers attempts r full.1 (rw (there, again) at e) in
          (suc j, b, at_j, answer)
      | inr whole ↦
          elim (Bool-cases (
            not (a.copied.epoch == epoch)
            || not (a.copied.epoch_nonce == epoch_nonce)
            || not (a.copied.sequence == sequence))) [
              | inl other ↦ let no : none ≡ some (value r) = rw (there, whole, other) at e in cc
              | inr same ↦ elim (Bool-cases a.reserved_is_zero) [
                | inr dirty ↦
                    let no : some (error corrupt) ≡ some (value r) =
                      rw (there, whole, same, dirty) at e in
                    cc
                | inl clean ↦ elim (Result-cases (normalize_move_result a.copied width height)) [
                  | inl (f, bad) ↦
                      let no : some (error corrupt) ≡ some (value r) =
                        rw (there, whole, same, clean, bad) at e in
                      cc
                  | inr (out, good) ↦
                      let is : some (value out) ≡ some (value r) =
                        rw (there, whole, same, clean, good) at e in
                      let here : out ≡ r = cc is in
                      (
                        0,
                        a,
                        refl,
                        whole-Answers a r full.0 there whole same clean (good ∙ ap value here),
                      )
                ]
              ]
            ]
    ]
  ]

  search_moves-Answers :
      (slots : List (List (Attempt SharedFrameBusMoveResult))) (r : SharedFrameBusMoveResult)
      → All AreFull slots
      → search_moves epoch epoch_nonce sequence width height slots ≡ value r
      → (i j : ℕ) × (attempts : List (Attempt SharedFrameBusMoveResult)) × (a : Attempt
          SharedFrameBusMoveResult)
        × (get_elem? slots i ≡ some attempts)
        × (get_elem? attempts j ≡ some a)
        × Answering a r
  unfolding search_moves
  search_moves-Answers [] r full e = cc
  search_moves-Answers (slot ∷ slots) r full e =
      elim (Option-cases (read_move_slot epoch epoch_nonce sequence width height slot)) [
        | inl next ↦
            let (i, j, attempts, a, at_i, at_j, answer) =
              search_moves-Answers slots r full.1 (rw next at e) in
            (suc i, j, attempts, a, at_i, at_j, answer)
        | inr (x, answer) ↦
            let is : x ≡ value r = rw answer at e in
            let (j, a, at_j, found) = read_move_slot-Answers slot r full.0 (answer ∙ ap some is) in
            (0, j, slot, a, refl, at_j, found)
      ]

-- A move result that a consumer gets is neither torn nor that of another frame. It comes from an attempt
-- at a slot whose commit number was even and not zero before the copy was made and was the same after
-- it; it is that copy in its normal form, names the frame that was asked for, and is accepted again as
-- it is. The consumer is registered, and the key is complete. The copies have the sixteen entries of
-- their arrays.
pub move_result-Answers :
    (epoch epoch_nonce sequence : ℕ) (slots : List (List (Attempt SharedFrameBusMoveResult)))
    (s : SharedFrameBusConsumerState) (control : ConsumerControl) (r : SharedFrameBusMoveResult)
    → All AreFull slots
    → move_result epoch epoch_nonce sequence slots s control ≡ value r
    → (registration_active s control ≡ true)
      × (epoch ≢ 0)
      × (epoch_nonce ≢ 0)
      × (sequence ≢ 0)
      × ((i j : ℕ) × (attempts : List (Attempt SharedFrameBusMoveResult)) × (a : Attempt
            SharedFrameBusMoveResult)
          × (get_elem? slots i ≡ some attempts)
          × (get_elem? attempts j ≡ some a)
          × Answers epoch epoch_nonce sequence s.width s.height a r)
unfolding move_result
move_result-Answers epoch epoch_nonce sequence slots s control r full e =
    let (complete, e1) =
      (refuse_iff (epoch == 0 || epoch_nonce == 0 || sequence == 0) invalid _).0 e in
    let (active, e2) = (refuse_iff (not (registration_active s control)) misused _).0 e1 in
    let (known, e3) =
      (refuse_iff (ltb s.protocol_version 4) (make_error unsupported e_notimpl) _).0 e2 in
    let key : (epoch ≢ 0) × (epoch_nonce ≢ 0) × (sequence ≢ 0) = ground (arith, complete) in
    (
      (not-false _).0 active,
      key.0,
      key.1,
      key.2,
      search_moves-Answers epoch epoch_nonce sequence s.width s.height slots r full e3,
    )
