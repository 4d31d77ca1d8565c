-- ===== src/Bus/Consumer/Order.antt =====
-- Frames that go back in any order are retired in the order in which they came.
use fluxcap.Prelude.{
  ℕ, ◌+◌, ◌<◌, ◌≡◌, ◌≢◌, refl, ap, sym, subst, ◌∙◌, Bool, true, false, List, [], ◌∷◌, ◌++◌, length,
  get_elem?, set, Option, some, All, arith, inl, inr, Bool-cases,
}
use fluxcap.Bus.Publisher.Slots.{get_elem?-set_ne}
use fluxcap.Bus.Consumer.{Acquisition, AcquisitionOrder, no_acquisition}
use fluxcap.Bus.Consumer.Release.{Retired, retire_entry, retire_order}

abbrev pub Increasing : ℕ → List AcquisitionOrder → Type 0
Increasing b [] = Unit {0}
Increasing b (e ∷ es) = (b < e.sequence) × Increasing e.sequence es

abbrev pub Apart : List AcquisitionOrder → Type 0
Apart [] = Unit {0}
Apart (e ∷ es) = All (λ f. f.slot ≢ e.slot) es × Apart es

-- The entry's slot has a record of the frame.
pub record Recorded (held : List Acquisition) (e : AcquisitionOrder) : Type 0 where
  pub acquisition : Acquisition
  pub at : get_elem? held e.slot ≡ some acquisition
  pub active : acquisition.active ≡ true
  pub same : acquisition.sequence ≡ e.sequence

-- The record of the entry says that the frame is back, or that it is not.
abbrev pub Back : Bool → List Acquisition → AcquisitionOrder → Type 0
Back back held e = (a : Acquisition) × (get_elem? held e.slot ≡ some a) × (a.released ≡ back)

abbrev pub FirstHeld : List Acquisition → List AcquisitionOrder → Type 0
FirstHeld held [] = Unit {0}
FirstHeld held (e ∷ es) = Back false held e

-- The order of the frames that are held: their numbers rise, each is recorded in a slot of its own.
pub record OrderIsValid (slot_count b : ℕ) (held : List Acquisition) (order : List AcquisitionOrder)
    : Type 0 where
  pub increasing : Increasing b order
  pub recorded : All (Recorded held) order
  pub apart : Apart order
  pub slots : All (λ e. e.slot < slot_count) order

Recorded-set :
    (held : List Acquisition) (k : ℕ) (v : Acquisition) (e : AcquisitionOrder)
    → Recorded held e
    → e.slot ≢ k
    → Recorded (set held k v) e
Recorded-set held k v e r other = record {
  acquisition = r.acquisition;
  at = get_elem?-set_ne held k e.slot v other ∙ r.at;
  active = r.active;
  same = r.same;
}

Recorded-set-All :
    (held : List Acquisition) (k : ℕ) (v : Acquisition) (es : List AcquisitionOrder)
    → All (Recorded held) es
    → All (λ f. f.slot ≢ k) es
    → All (Recorded (set held k v)) es
Recorded-set-All held k v [] r other = tt
Recorded-set-All held k v (e ∷ es) r other =
    (Recorded-set held k v e r.0 other.0, Recorded-set-All held k v es r.1 other.1)

Back-unset-All :
    (held : List Acquisition) (k : ℕ) (v : Acquisition) (es rest : List AcquisitionOrder)
    → All (λ f. f.slot ≢ k) (es ++ rest)
    → All (Back true (set held k v)) es
    → All (Back true held) es
Back-unset-All held k v [] rest other b = tt
Back-unset-All held k v (e ∷ es) rest other b =
    let (a, at, back) = b.0 in
    (
      (a, sym (get_elem?-set_ne held k e.slot v other.0) ∙ at, back),
      Back-unset-All held k v es rest other.1 b.1,
    )

-- What the loop does: it takes the frames that are back from the front, up to the first that is not.
pub record Retires (slot_count b count : ℕ) (held : List Acquisition)
    (order : List AcquisitionOrder) : Type 0 where
  pub result : Retired
  pub returns : retire_order slot_count order held count b ≡ some result
  pub gone : List AcquisitionOrder
  pub split : order ≡ gone ++ result.order
  pub back : All (Back true held) gone
  pub counted : result.count ≡ count + length gone
  pub first : FirstHeld result.acquisitions result.order
  pub left : OrderIsValid slot_count result.sequence result.acquisitions result.order

module _ (n : ℕ) (e : AcquisitionOrder) (a : Acquisition) (stop : Option Retired)
    (go : Acquisition → Option Retired) (inside : e.slot < n) (active : a.active ≡ true)
    (same : a.sequence ≡ e.sequence) where
  retire_entry-stops : a.released ≡ false → retire_entry n e (some a) stop go ≡ stop
  unfolding retire_entry
  retire_entry-stops out = ground (arith, inside, active, same)

  retire_entry-goes : a.released ≡ true → retire_entry n e (some a) stop go ≡ go a
  unfolding retire_entry
  retire_entry-goes back = ground (arith, inside, active, same)

module _ (n b count : ℕ) (held : List Acquisition) (e : AcquisitionOrder)
    (es : List AcquisitionOrder) (v : OrderIsValid n b held (e ∷ es)) where
  rest_valid : (q : ℕ) → q ≡ e.sequence → OrderIsValid n q (set held e.slot no_acquisition) es
  rest_valid q same = record {
    increasing = subst (λ z. Increasing z es) (sym same) v.increasing.1;
    recorded = Recorded-set-All held e.slot no_acquisition es v.recorded.1 v.apart.0;
    apart = v.apart.1;
    slots = v.slots.1;
  }

  stops :
      (a : Acquisition)
      → get_elem? held e.slot ≡ some a
      → a.active ≡ true
      → a.sequence ≡ e.sequence
      → a.released ≡ false
      → Retires n b count held (e ∷ es)
  unfolding retire_order
  stops a at active same out = record {
    result = record { acquisitions = held; order = e ∷ es; count = count; sequence = b };
    returns = rw at (
        retire_entry-stops n e a _
          (λ x. retire_order n es (set held e.slot no_acquisition) (count + 1) x.sequence) v.slots.0
          active same out);
    gone = [];
    split = refl;
    back = tt;
    counted = omega arith;
    first = (a, at, out);
    left = v;
  }

  takes :
      (a : Acquisition)
      → get_elem? held e.slot ≡ some a
      → a.active ≡ true
      → a.sequence ≡ e.sequence
      → a.released ≡ true
      → Retires n a.sequence (count + 1) (set held e.slot no_acquisition) es
      → Retires n b count held (e ∷ es)
  unfolding retire_order
  takes a at active same back ih = record {
    result = ih.result;
    returns = rw at (
        retire_entry-goes n e a _
          (λ x. retire_order n es (set held e.slot no_acquisition) (count + 1) x.sequence) v.slots.0
          active same back
        ∙ ih.returns);
    gone = e ∷ ih.gone;
    split = ap (λ r. e ∷ r) ih.split;
    back = (
      (a, at, back),
      Back-unset-All held e.slot no_acquisition ih.gone ih.result.order
          (subst (All (λ f. f.slot ≢ e.slot)) ih.split v.apart.0) ih.back,
    );
    counted = omega (arith, ih.counted);
    first = ih.first;
    left = ih.left;
  }

pub retire_order-Retires :
    (slot_count b count : ℕ) (held : List Acquisition) (order : List AcquisitionOrder)
    → OrderIsValid slot_count b held order
    → Retires slot_count b count held order
unfolding retire_order
retire_order-Retires n b count held [] v = record {
  result = record { acquisitions = held; order = []; count = count; sequence = b };
  returns = refl;
  gone = [];
  split = refl;
  back = tt;
  counted = omega arith;
  first = tt;
  left = v;
}
retire_order-Retires n b count held (e ∷ es) v =
    let r = v.recorded.0 in
    let a = r.acquisition in
    let ih =
      retire_order-Retires n a.sequence (count + 1) (set held e.slot no_acquisition) es
        (rest_valid n b count held e es v a.sequence r.same) in
    elim (Bool-cases a.released) [
      | inl back ↦ takes n b count held e es v a r.at r.active r.same back ih
      | inr out ↦ stops n b count held e es v a r.at r.active r.same out
    ]
