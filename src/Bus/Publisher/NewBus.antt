-- ===== src/Bus/Publisher/NewBus.antt =====
-- The bus that `initialize` sets up is valid.
use fluxcap.Prelude.{
  ℕ, zero, suc, length, length-replicate, ◌≤◌, ap, not, ◌<◌, ◌≡◌, refl, subst, true, false, Bool,
  get_elem?, replicate, some, some_inj, All, All-replicate, arith,
}
use fluxcap.Gpu.{Result, value, error, ◌>>◌, refuse_iff, invalid}
use fluxcap.Bus.Control.{Slot, any, is_free}
use fluxcap.Bus.Publisher.{SharedFrameBusPublisherState, SharedFrameBusConfig}
use fluxcap.Bus.Publisher.Slots.{SlotIsValid}
use fluxcap.Bus.Publisher.Invariant.{IsValid}
use fluxcap.Bus.Publisher.Initialize.{
  SetupReading, bad_config, must, create_textures, zero_slot, new_bus, initialize,
}

any_none : (n : ℕ) → any (replicate n false) ≡ false
any_none zero = refl
any_none (suc n) = any_none n

module _ (c : SharedFrameBusConfig) where
  -- Every slot is the zero one.
  zero_only :
      (n i : ℕ) (s : Slot)
      → get_elem? (replicate n (zero_slot c.max_consumers)) i ≡ some s
      → zero_slot c.max_consumers ≡ s
  zero_only zero i s e = cc
  zero_only (suc n) zero s e = some_inj e
  zero_only (suc n) (suc i) s e = zero_only n i s e

  zero_slot-SlotIsValid : SlotIsValid c 0 (zero_slot c.max_consumers)
  zero_slot-SlotIsValid = record {
    bound = omega arith;
    numbers = λ n. absurd (n refl);
    metadata = λ n. absurd (n refl);
    side_data = λ n. absurd (n refl);
    writing = λ w. cc;
    alone = λ w. cc;
  }

  pub new_bus-IsValid : IsValid (new_bus c)
  unfolding new_bus
  new_bus-IsValid = (
    record {
      each = λ i s e. subst (SlotIsValid c 0) (zero_only c.slot_count i s e) zero_slot-SlotIsValid;
      written = λ i s e.
          let unmarked : s.ownership.writer ≡ false =
            subst (λ t. t.ownership.writer ≡ false) (zero_only c.slot_count i s e) refl in
          (λ h. cc, λ h. cc);
      distinct = λ i j s t e f nonzero same.
          let none_yet : s.sequence ≡ 0 =
            subst (λ t. t.sequence ≡ 0) (zero_only c.slot_count i s e) refl in
          absurd (nonzero none_yet);
    },
    omega arith,
  )

  new_bus-free :
      (length (new_bus c).slots ≡ c.slot_count)
      × All (λ s. (is_free s.ownership ≡ true) × (s.sequence ≡ 0)) (new_bus c).slots
  unfolding new_bus is_free
  new_bus-free = (
    length-replicate c.slot_count (zero_slot c.max_consumers),
    All-replicate (λ s. (is_free s.ownership ≡ true) × (s.sequence ≡ 0)) c.slot_count
        {v = zero_slot c.max_consumers} (ap not (any_none c.max_consumers), refl),
  )

-- What follows a call that has not failed.
after {ℓ} :
    {A : Type ℓ} (m : Result (Unit {0})) {k : Result A} {a : A} → (m >> k) ≡ value a → k ≡ value a
after (value done) e = e
after (error f) e = cc

config_lem :
    (b : Bool) (c : SharedFrameBusConfig)
    → bad_config b c ≡ false
    → (0 < c.width)
      × (0 < c.height)
      × (2 ≤ c.slot_count)
      × (c.slot_count ≤ 8)
      × (0 < c.max_consumers)
      × (c.max_consumers ≤ 8)
unfolding bad_config
config_lem b c h = ground (arith, h)

-- A bus is set up only for a size that is not empty, two to eight slots and one to eight consumers. It
-- is valid, has a slot for each that was asked for, and every slot is free and has no frame.
pub initialize-IsValid :
    (o : SetupReading) (c : SharedFrameBusConfig) (p : SharedFrameBusPublisherState)
    → initialize o c ≡ value p
    → (0 < c.width)
      × (0 < c.height)
      × (2 ≤ c.slot_count)
      × (c.slot_count ≤ 8)
      × (0 < c.max_consumers)
      × (c.max_consumers ≤ 8)
      × IsValid p
      × (length p.slots ≡ c.slot_count)
      × All (λ s. (is_free s.ownership ≡ true) × (s.sequence ≡ 0)) p.slots
unfolding initialize
initialize-IsValid o c p e =
    let (good, e1) = (refuse_iff (bad_config o.device_is_null c) invalid _).0 e in
    let set_up = after (must o.mapping_viewed _) (
      after (must o.mapping_created _) (
        after (must o.fence_shared _) (
          after (must o.fence_created _) (
            after (create_textures o.textures) (
              after (must o.adapter_luid _) (
                after (must o.multithread _)
                  (after (must o.context4 _) (after (must o.device5 _) e1)))))))) in
    let (w, h, few, most, one, all) = config_lem o.device_is_null c good in
    let is : new_bus c ≡ p = cc set_up in
    let (valid, count, free) =
      subst
        (λ q.
          IsValid q
          × (length q.slots ≡ c.slot_count)
          × All (λ s. (is_free s.ownership ≡ true) × (s.sequence ≡ 0)) q.slots)
        is (new_bus-IsValid c, (new_bus-free c).0, (new_bus-free c).1) in
    (w, h, few, most, one, all, valid, count, free)
