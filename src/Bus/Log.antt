-- ===== src/Bus/Log.antt =====
-- The bus as its users see it: a log of frames that only grows. A slot with a number is a copy of the
-- entry with that number, counted from one.
pub mod Commit
pub mod Calls
pub mod Refines
use fluxcap.Prelude.{
  ℕ, zero, suc, ◌+◌, ◌-◌, ◌<◌, ◌≡◌, ◌≢◌, ◌⊎◌, inl, inr, refl, ap, sym, subst, ◌∙◌, Bool, true,
  false, List, [], ◌∷◌, ◌++◌, length, length-append, get_elem?, if◌then◌else◌, some, arith,
}
use fluxcap.Bus.Metadata.{SharedFrameBusFrameMetadata}
use fluxcap.Bus.SideData.{SharedFrameBusFrameSideData}
use fluxcap.Bus.Control.{Slot}
use fluxcap.Bus.Publisher.{SharedFrameBusPublisherState}
use fluxcap.Bus.Publisher.Write.{update_slot}
use fluxcap.Bus.Publisher.Slots.{update_slot_cases}
use fluxcap.Bus.Publisher.Invariant.{Carries, Kept}

abbrev pub Frame : Type 0
Frame = SharedFrameBusFrameMetadata × SharedFrameBusFrameSideData

-- The publisher's state shows the log.
pub record Shows (log : List Frame) (p : SharedFrameBusPublisherState) : Type 0 where
  pub count : length log ≡ p.sequence
  pub slots :
      (i : ℕ) (t : Slot)
      → get_elem? p.slots i ≡ some t
      → t.sequence ≢ 0
      → get_elem? log (t.sequence - 1) ≡ some (t.metadata, t.side_data)

abbrev pub Stays : SharedFrameBusPublisherState → SharedFrameBusPublisherState → Type 0
Stays p q = (log : List Frame) → Shows log p → Shows log q

-- The log stays as it is, or grows by one frame of those that are offered.
abbrev pub Follows :
    (Frame → Type 0) → SharedFrameBusPublisherState → SharedFrameBusPublisherState → Type 0
Follows Offered p q =
    Stays p q
    ⊎ ((f : Frame) × Offered f × ((log : List Frame) → Shows log p → Shows (log ++ (f ∷ [])) q))

-- The same of the state that a call returns with an answer.
pub record FollowsWith {ℓ} {A : Type ℓ} (Offered : Frame → Type 0)
    (p : SharedFrameBusPublisherState) (out : SharedFrameBusPublisherState × A) : Type 0 where
  pub follows : Follows Offered p out.0

module _ {ℓ} {A : Type ℓ} (Offered : Frame → Type 0) (p : SharedFrameBusPublisherState) where
  pub FollowsWith-if :
      (b : Bool) (q r : SharedFrameBusPublisherState × A)
      → FollowsWith Offered p q
      → FollowsWith Offered p r
      → FollowsWith Offered p (if b then q else r)
  FollowsWith-if true q r a b = a
  FollowsWith-if false q r a b = b

  -- An early return.
  pub refused :
      (b : Bool) (x : A) (r : SharedFrameBusPublisherState × A)
      → FollowsWith Offered p r
      → FollowsWith Offered p (if b then (p, x) else r)
  refused b x r h = FollowsWith-if b (p, x) r (record { follows = inl (λ log s. s) }) h

pub Carries-Stays :
    (p q : SharedFrameBusPublisherState)
    → q.sequence ≡ p.sequence
    → Carries p.slots q.slots
    → Stays p q
Carries-Stays p q same carries log s = record {
  count = s.count ∙ sym same;
  slots = λ i t at n.
      let (old, at', is) = carries i t at n in
      let number = ap (λ (x : Slot). x.sequence) is in
      let shown = s.slots i old at' (λ z. n (number ∙ z)) in rw is shown;
}

pub Kept-Stays : (p q : SharedFrameBusPublisherState) → Kept p q → Stays p q
Kept-Stays p q k = Carries-Stays p q k.sequence k.frames

-- A slot that loses its number, or has only its word changed.
pub update-Carries :
    (ss : List Slot) (k : ℕ) (f : Slot → Slot)
    → ((s : Slot) → (f s).sequence ≢ 0 → f s ≡ record s { ownership = (f s).ownership })
    → Carries ss (update_slot k f ss)
update-Carries ss k f kept i t at n = elim (update_slot_cases ss k i f at) [
  | inl (here, s, at', is) ↦
      let same = kept s (λ z. n (ap (λ (x : Slot). x.sequence) is ∙ z)) in
      (
        s,
        ap (get_elem? ss) here ∙ at',
        is ∙ same ∙ ap (λ (x : Slot). record s { ownership = x.ownership }) (sym is),
      )
  | inr (there, at') ↦ (t, at', refl)
]

-- The entries of a log stay where they are when it grows, and the new one is the last.
get_elem?-grown :
    (log : List Frame) (f g : Frame) (i : ℕ)
    → get_elem? log i ≡ some g
    → get_elem? (log ++ (f ∷ [])) i ≡ some g
get_elem?-grown [] f g i e = cc
get_elem?-grown (h ∷ log) f g zero e = e
get_elem?-grown (h ∷ log) f g (suc i) e = get_elem?-grown log f g i e

get_elem?-newest :
    (log : List Frame) (f : Frame) → get_elem? (log ++ (f ∷ [])) (length log) ≡ some f
get_elem?-newest [] f = refl
get_elem?-newest (h ∷ log) f = get_elem?-newest log f

-- A slot gets the next number with a frame, and the others carry what they had.
pub publish-Shows :
    (p q : SharedFrameBusPublisherState) (k : ℕ) (g : Slot → Slot) (f : Frame)
    → q.sequence ≡ p.sequence + 1
    → q.slots ≡ update_slot k g p.slots
    → ((s : Slot)
        → ((g s).sequence ≡ p.sequence + 1) × ((g s).metadata ≡ f.0) × ((g s).side_data ≡ f.1))
    → (log : List Frame) → Shows log p
    → Shows (log ++ (f ∷ [])) q
publish-Shows p q k g f next is new log s = record {
  count = omega (arith, length-append log (f ∷ []), s.count, next);
  slots = λ i t at n. elim (update_slot_cases p.slots k i g (rw is at at)) [
    | inl (here, old, at', made) ↦
        let (number, m, d) = new old in
        let place : t.sequence - 1 ≡ length log =
          omega (arith, ap (λ (x : Slot). x.sequence) made, number, s.count) in
        let what : (t.metadata, t.side_data) ≡ (f.0, f.1) = rw (made, m, d) refl in
        ap (get_elem? (log ++ (f ∷ []))) place ∙ get_elem?-newest log f ∙ ap some (sym what)
    | inr (there, at') ↦
        get_elem?-grown log f (t.metadata, t.side_data) (t.sequence - 1) (s.slots i t at' n)
  ];
}
