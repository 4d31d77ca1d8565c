-- ===== src/Bus/Consumer/Retire.antt =====
-- What `release` promises: the done fence never passes a frame that is held.
use fluxcap.Prelude.{
  ℕ, ◌-◌, ◌≤◌, ◌<◌, ◌≡◌, ◌≢◌, ◌⊎◌, refl, ap, sym, subst, ◌∙◌, true, false, ◌==◌, List, [], ◌∷◌,
  ◌++◌, length, length-append, get_elem?, set, get_elem?-set_self, if◌then◌else◌, none, some, All,
  All-imp, arith, inl, inr, Bool-cases, some_inj,
}
use native.Mathlib.Decide.{ℕ_discrete}
use fluxcap.Gpu.{success}
use fluxcap.Bus.Publisher.Sweep.{has_failed}
use fluxcap.Bus.Publisher.Write.{DeviceReading}
use fluxcap.Bus.Consumer.{Acquisition, AcquisitionOrder, SharedFrameBusConsumerState, SharedPage}
use fluxcap.Bus.Consumer.Release.{
  Retired, Signalled, retire_order, signal_retired, settle_order, release_acquired, release_record,
  release,
}
use fluxcap.Bus.Publisher.Slots.{lt_of_get, get_elem?-set_ne}
use fluxcap.Bus.Consumer.Order.{
  Increasing, Recorded, Back, FirstHeld, OrderIsValid, retire_order-Retires,
}

abbrev pub Observed : SharedFrameBusConsumerState → Type 0
Observed s = All (λ e. e.sequence ≤ s.observed_sequence) s.acquisition_order

-- The frames that are held are recorded in order, and counted.
pub record IsValid (s : SharedFrameBusConsumerState) : Type 0 where
  pub order : OrderIsValid s.slot_count 0 s.acquisitions s.acquisition_order
  pub observed : Observed s
  pub counted : s.active_acquisitions ≡ length s.acquisition_order

-- The lease names a frame that is held and is not yet back.
abbrev pub IsHeld : SharedFrameBusConsumerState → ℕ → ℕ → Type 0
IsHeld s slot sequence =
    (a : Acquisition) × (get_elem? s.acquisitions slot ≡ some a)
    × (slot < s.slot_count)
    × (a.active ≡ true)
    × (a.released ≡ false)
    × (a.sequence ≡ sequence)

module _ (held : List Acquisition) (slot : ℕ) (a : Acquisition)
    (at : get_elem? held slot ≡ some a) where
  mark-Recorded :
      (e : AcquisitionOrder)
      → Recorded held e
      → Recorded (set held slot (record a { released = true })) e
  mark-Recorded e r = elim (ℕ_discrete e.slot slot) [
    | yes here ↦
        let same : r.acquisition ≡ a = some_inj (sym r.at ∙ ap (get_elem? held) here ∙ at) in
        record {
          acquisition = record a { released = true };
          at =
              ap (get_elem? (set held slot (record a { released = true }))) here
              ∙ get_elem?-set_self held slot _ (lt_of_get held slot at);
          active = ap (λ (x : Acquisition). x.active) (sym same) ∙ r.active;
          same = ap (λ (x : Acquisition). x.sequence) (sym same) ∙ r.same;
        }
    | no there ↦ record {
      acquisition = r.acquisition;
      at = get_elem?-set_ne held slot e.slot _ there ∙ r.at;
      active = r.active;
      same = r.same;
    }
  ]

  mark-OrderIsValid :
      (n b : ℕ) (order : List AcquisitionOrder)
      → OrderIsValid n b held order
      → OrderIsValid n b (set held slot (record a { released = true })) order
  mark-OrderIsValid n b order v = record {
    increasing = v.increasing;
    recorded =
        All-imp (Recorded held) (Recorded (set held slot (record a { released = true })))
          mark-Recorded order v.recorded;
    apart = v.apart;
    slots = v.slots;
  }

abbrev pub marked : List Acquisition → ℕ → List Acquisition
marked held slot = elim (get_elem? held slot) [
  | none ↦ held
  | some a ↦ set held slot (record a { released = true })
]

marked_lem :
    (held : List Acquisition) (slot : ℕ) (a : Acquisition)
    → get_elem? held slot ≡ some a
    → marked held slot ≡ set held slot (record a { released = true })
marked_lem held slot a at = rw (at, marked)

Increasing-mono :
    (b b' : ℕ) (es : List AcquisitionOrder) → b' ≤ b → Increasing b es → Increasing b' es
Increasing-mono b b' [] h i = tt
Increasing-mono b b' (e ∷ es) h i = (omega (arith, i.0), i.1)

All-suffix :
    (q : ℕ) (gone rest : List AcquisitionOrder)
    → All (λ e. e.sequence ≤ q) (gone ++ rest)
    → All (λ e. e.sequence ≤ q) rest
All-suffix q [] rest h = h
All-suffix q (e ∷ gone) rest h = All-suffix q gone rest h.1

-- What a release leaves behind it: the order without the frames that were back at its front, and the
-- fence told the last of these, if there were any.
pub record Releases (s t : SharedFrameBusConsumerState) (slot : ℕ) (signalled : Signalled)
    : Type 0 where
  pub valid : IsValid t
  pub gone : List AcquisitionOrder
  pub split : s.acquisition_order ≡ gone ++ t.acquisition_order
  pub back : All (Back true (marked s.acquisitions slot)) gone
  pub first : FirstHeld t.acquisitions t.acquisition_order
  pub signal :
      ((signalled ≡ none) × (length gone ≡ 0))
      ⊎ ((q : ℕ) × (signalled ≡ some q) × Increasing q t.acquisition_order × (length gone ≢ 0))

module _ (d : DeviceReading) (s : SharedFrameBusConsumerState) (page : SharedPage)
    (signals : has_failed d.signal ≡ false) (present : has_failed d.removed ≡ false)
    (r : Retired) where
  abbrev after : SharedFrameBusConsumerState
  after = record s {
    acquisitions = r.acquisitions;
    acquisition_order = r.order;
    active_acquisitions = s.active_acquisitions - r.count;
  }

  settled :
      settle_order d (some r) s page
      ≡ ((after, page), success, (if r.count == 0 then none else some r.sequence))
  unfolding settle_order signal_retired
  settled = ground (arith, signals, present)

  release_acquired-returns :
      retire_order s.slot_count s.acquisition_order s.acquisitions 0 0 ≡ some r
      → release_acquired d s page
        ≡ ((after, page), success, (if r.count == 0 then none else some r.sequence))
  unfolding release_acquired
  release_acquired-returns e = rw e settled

release_record-accepts :
    (d : DeviceReading) (slot sequence : ℕ) (a : Acquisition) (s : SharedFrameBusConsumerState)
    (page : SharedPage)
    → slot < s.slot_count
    → a.active ≡ true
    → a.released ≡ false
    → a.sequence ≡ sequence
    → release_record d slot sequence (some a) s page
      ≡ release_acquired d
          (record s { acquisitions = set s.acquisitions slot (record a { released = true }) })
          page
unfolding release_record
release_record-accepts d slot sequence a s page inside active out same =
    ground (arith, inside, active, out, same)

-- The release of a frame that a valid consumer holds succeeds when the device takes the signal and is
-- not removed, and the consumer stays valid. The frames that are back are retired from the front of the
-- order, up to the first that is still held; the fence is told a number less than that of every frame
-- that is left, and nothing when no frame is retired.
pub release-Releases :
    (d : DeviceReading) (slot sequence : ℕ) (s : SharedFrameBusConsumerState) (page : SharedPage)
    → has_failed d.signal ≡ false
    → has_failed d.removed ≡ false
    → IsValid s
    → IsHeld s slot sequence
    → let ((t, page'), e, signalled) = release d slot sequence s page in
      (e ≡ success) × (page' ≡ page) × Releases s t slot signalled
unfolding release
release-Releases d slot sequence s page signals present v (a, at, inside, active, out, same) =
    let m = record s { acquisitions = set s.acquisitions slot (record a { released = true }) } in
    let loop =
      retire_order-Retires s.slot_count 0 0 m.acquisitions m.acquisition_order
        (mark-OrderIsValid s.acquisitions slot a at s.slot_count 0 s.acquisition_order v.order) in
    let r = loop.result in
    let ends = release_acquired-returns d m page signals present r loop.returns in
    rw at (
      rw (release_record-accepts d slot sequence a s page inside active out same ∙ ends) (
        refl,
        refl,
        record {
          valid = record {
            order = record {
              increasing = Increasing-mono r.sequence 0 r.order (omega arith) loop.left.increasing;
              recorded = loop.left.recorded;
              apart = loop.left.apart;
              slots = loop.left.slots;
            };
            observed =
                All-suffix s.observed_sequence loop.gone r.order
                  (subst (All (λ e. e.sequence ≤ s.observed_sequence)) loop.split v.observed);
            counted = omega (
              arith,
              loop.counted,
              v.counted,
              ap (λ l. length l) loop.split,
              length-append loop.gone r.order,
            );
          };
          gone = loop.gone;
          split = loop.split;
          back =
              subst (λ h. All (Back true h) loop.gone) (sym (marked_lem s.acquisitions slot a at))
                loop.back;
          first = loop.first;
          signal = elim (Bool-cases (r.count == 0)) [
            | inl nothing ↦ inl (rw nothing, ground (arith, nothing, loop.counted))
            | inr some_gone ↦ inr (
              r.sequence,
              rw some_gone,
              loop.left.increasing,
              ground (arith, some_gone, loop.counted),
            )
          ];
        },
      ))
