-- ===== src/Bus/Log/Refines.antt =====
-- The bus refines its log: whatever happens, the publisher's state shows the frames that the calls have
-- published, in their order, and each slot with a number is one of them.
use fluxcap.Prelude.{
  ℕ, zero, suc, arith, ap, true, replicate, some_inj, ◌≡◌, ◌⊎◌, inl, inr, refl, sym, subst, ◌∙◌,
  List, [], ◌∷◌, ◌++◌, All, get_elem?, some,
}
use fluxcap.Bus.Control.{Slot}
use fluxcap.Bus.Publisher.{SharedFrameBusPublisherState, SharedFrameBusConfig}
use fluxcap.Bus.Publisher.Initialize.{new_bus, zero_slot}
use fluxcap.Bus.Publisher.Sweep.{clear_slot, sweep_consumers}
use fluxcap.Bus.Publisher.SweepKept.{sweep_consumers-Kept}
use fluxcap.Bus.Publisher.Calls.{check_shape, check_move_result}
use fluxcap.Bus.Publisher.Write.{update_slot}
use fluxcap.Bus.History.{
  Call, step, run, CallIsFull, publishes, begins, commits, commits_reserved, resets, reserves,
  releases_producer, publishes_shape, publishes_moves, registers, sweeps, reader_comes, reader_goes,
  reader_quarantines, set_reader, quarantine_own,
}
use fluxcap.Bus.Log.{Frame, Shows, Stays, Follows, Kept-Stays, Carries-Stays, update-Carries}
use fluxcap.Bus.Log.Commit.{Copies, commit_write-Follows}
use fluxcap.Bus.Log.Calls.{
  publish-Follows, commit_reserved-Follows, begin_publish-Follows, reserve_producer-Follows,
  release_producer-Stays, reset_lease-Stays, shape_checked-Stays, moves_checked-Stays,
  register_consumer-Follows,
}

-- The frame that a call may publish: the normal form of the one that it is given.
abbrev pub Offered : Call → Frame → Type 0
Offered (publishes source m d rounds device) f = Copies m d f
Offered (commits lease device m d) f = Copies m d f
Offered (commits_reserved token lease device m d) f = Copies m d f
Offered _ f = ⊥

-- The frames that a history may publish: of some of its calls the frame that it offers, in their order.
abbrev pub Published : List Call → List Frame → Type 0
Published [] fs = fs ≡ []
Published (c ∷ cs) fs =
    Published cs fs
    ⊎ ((f : Frame) × (rest : List Frame) × Offered c f × (fs ≡ f ∷ rest) × Published cs rest)

word-Stays :
    (slot : ℕ) (g : Slot → Slot) (p : SharedFrameBusPublisherState)
    → ((s : Slot) → g s ≡ record s { ownership = (g s).ownership })
    → Stays p (record p { slots = update_slot slot g p.slots })
word-Stays slot g p same = Carries-Stays p _ refl (update-Carries p.slots slot g (λ s n. same s))

set_reader-same :
    (index : ℕ) (s : Slot)
    → set_reader index s ≡ record s { ownership = (set_reader index s).ownership }
unfolding set_reader
set_reader-same index s = ground arith

quarantine_own-same :
    (index : ℕ) (s : Slot)
    → quarantine_own index s ≡ record s { ownership = (quarantine_own index s).ownership }
unfolding quarantine_own
quarantine_own-same index s = ground arith

step-Follows :
    (c : Call) (p : SharedFrameBusPublisherState) → CallIsFull c → Follows (Offered c) p (step c p)
unfolding step
step-Follows (publishes source m d rounds device) p full =
    publish-Follows source m d rounds device p full
step-Follows (begins lock_is_free once token rounds) p full =
    (begin_publish-Follows (Offered (begins lock_is_free once token rounds)) p lock_is_free once
      true token rounds).follows
step-Follows (commits lease device m d) p full =
    commit_write-Follows lease.slot lease.token true device m d p
step-Follows (commits_reserved token lease device m d) p full =
    commit_reserved-Follows token lease device m d p
step-Follows (resets lease) p full = inl (reset_lease-Stays p lease)
step-Follows reserves p full = (reserve_producer-Follows (Offered reserves) p).follows
step-Follows (releases_producer token) p full = inl (release_producer-Stays p token)
step-Follows (publishes_shape token shape) p full =
    inl (shape_checked-Stays p (check_shape token shape p) shape)
step-Follows (publishes_moves token r) p full =
    inl (moves_checked-Stays p (check_move_result token r p))
step-Follows (registers o readings) p full =
    (register_consumer-Follows (Offered (registers o readings)) p o readings).follows
step-Follows (sweeps readings) p full =
    inl (Kept-Stays p (sweep_consumers readings p).0 (sweep_consumers-Kept readings p))
step-Follows (reader_comes slot index) p full =
    inl (word-Stays slot (set_reader index) p (set_reader-same index))
step-Follows (reader_goes slot index) p full =
    inl (word-Stays slot (clear_slot index) p (λ s. refl))
step-Follows (reader_quarantines slot index) p full =
    inl (word-Stays slot (quarantine_own index) p (quarantine_own-same index))

append_assoc :
    (log : List Frame) (f : Frame) (rest : List Frame)
    → (log ++ (f ∷ [])) ++ rest ≡ log ++ (f ∷ rest)
append_assoc [] f rest = refl
append_assoc (g ∷ log) f rest = ap (λ l. g ∷ l) (append_assoc log f rest)

append_nil : (log : List Frame) → log ++ [] ≡ log
append_nil [] = refl
append_nil (g ∷ log) = ap (λ l. g ∷ l) (append_nil log)

zero_only :
    (n i : ℕ) (z s : Slot) → z.sequence ≡ 0 → get_elem? (replicate n z) i ≡ some s → s.sequence ≡ 0
zero_only zero i z s e at = cc
zero_only (suc n) zero z s e at = ap (λ (x : Slot). x.sequence) (sym (some_inj at)) ∙ e
zero_only (suc n) (suc i) z s e at = zero_only n i z s e at

-- A new bus shows the empty log.
pub new_bus-Shows : (c : SharedFrameBusConfig) → Shows [] (new_bus c)
unfolding new_bus
new_bus-Shows c = record {
  count = refl;
  slots = λ i t at n. absurd (n (zero_only c.slot_count i (zero_slot c.max_consumers) t refl at));
}

-- The bus refines an append-only log. When its state shows a log, then after any history whose side
-- data has the entries of its arrays it shows that log with frames added behind it: these are, in the
-- order of the history's calls, the normal forms of frames that its publishing calls were given, at most
-- one for each. To show a log is to have its length as the sequence number, and in every slot with a
-- number the metadata and side data of the entry with that number.
pub run-Refines :
    (cs : List Call) (log : List Frame) (p : SharedFrameBusPublisherState)
    → All CallIsFull cs
    → Shows log p
    → (added : List Frame) × Published cs added × Shows (log ++ added) (run cs p)
unfolding run
run-Refines [] log p full shows = ([], refl, subst (λ l. Shows l p) (sym (append_nil log)) shows)
run-Refines (c ∷ cs) log p full shows = elim (step-Follows c p full.0) [
  | inl stays ↦
      let (added, published, later) = run-Refines cs log (step c p) full.1 (stays log shows) in
      (added, inl published, later)
  | inr (f, offered, grows) ↦
      let (added, published, later) =
        run-Refines cs (log ++ (f ∷ [])) (step c p) full.1 (grows log shows) in
      (
        f ∷ added,
        inr (f, added, offered, refl, published),
        subst (λ l. Shows l (run cs (step c p))) (append_assoc log f added) later,
      )
]
