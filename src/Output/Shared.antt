-- ===== src/Output/Shared.antt =====
-- All recorders show the frames that any of them records.
use py_lwip.Prelude.{
  ℕ, ◌≡◌, refl, sym, ap, ◌∙◌, Bool, none, List, [], ◌∷◌, ◌++◌, append_assoc, append-nil, map,
}
use py_lwip.Prelude.Ran.{Ran, done, and_then}
use py_lwip.Emulation.EthernetBus.{notify}
use py_lwip.Scheduler.Executor.{update}
use py_lwip.Scheduler.Executor.Ledger.{update_self}
use py_lwip.Stack.Lwip.{Bytes}
use py_lwip.Output.{Frames, frames_of, recorded_frames, recorder}

-- A frame that is told to the observers: its sender, its bytes, and whether it was forwarded.
pub record Told : Type 0 where
  pub netif : ℕ
  pub frame : Bytes
  pub was_forwarded : Bool

-- The recorders are the observers of a bus, which tells them frames.
abbrev pub tell_all : List ℕ → List Told → Frames → Ran Frames (Unit {0})
tell_all recorders [] w = done w tt
tell_all recorders (t ∷ ts) w =
    and_then (notify (map recorder recorders) t.netif t.frame t.was_forwarded w)
      λ _ w₁. tell_all recorders ts w₁

-- Each frame, once for each recorder.
abbrev for_each : List ℕ → Bytes → List Bytes
for_each [] frame = []
for_each (r ∷ rs) frame = frame ∷ for_each rs frame

abbrev pub all_told : List ℕ → List Told → List Bytes
all_told recorders [] = []
all_told recorders (t ∷ ts) = for_each recorders t.frame ++ all_told recorders ts

-- No recorder has a list of its own; w₁ differs from w by what has come into the list of the class.
pub record Added (frames : List Bytes) (w w₁ : Frames) : Type 0 where
  pub class_same : w₁.class_frames ≡ w.class_frames
  pub none_own : (self : ℕ) → w₁.own_frames self ≡ none
  pub added : w₁.lists w₁.class_frames ≡ w.lists w.class_frames ++ frames

Added-trans :
    (xs ys : List Bytes) (w w₁ w₂ : Frames) → Added xs w w₁ → Added ys w₁ w₂ → Added (xs ++ ys) w w₂
Added-trans xs ys w w₁ w₂ a b = record {
  class_same = b.class_same ∙ a.class_same;
  none_own = b.none_own;
  added = b.added ∙ ap (λ l. l ++ ys) a.added ∙ append_assoc (w.lists w.class_frames) xs ys;
}

Added-none : (w : Frames) → ((self : ℕ) → w.own_frames self ≡ none) → Added [] w w
Added-none w none_own = record {
  class_same = refl;
  none_own = none_own;
  added = sym (append-nil (w.lists w.class_frames));
}

frames_of-class :
    (self : ℕ) (w : Frames) → ((r : ℕ) → w.own_frames r ≡ none) → frames_of self w ≡ w.class_frames
frames_of-class self w none_own = rw (none_own self) refl

append_at : ℕ → Bytes → Frames → Frames
append_at l frame w = record w { lists = update w.lists l (w.lists l ++ frame ∷ []) }

append_at-Added :
    (l : ℕ) (frame : Bytes) (w : Frames)
    → ((r : ℕ) → w.own_frames r ≡ none)
    → l ≡ w.class_frames
    → Added (frame ∷ []) w (append_at l frame w)
unfolding append_at
append_at-Added l frame w none_own at = record {
  class_same = refl;
  none_own = none_own;
  added =
      ap (λ c. update w.lists l (w.lists l ++ frame ∷ []) c) (sym at)
      ∙ update_self w.lists l (w.lists l ++ frame ∷ [])
      ∙ ap (λ c. w.lists c ++ frame ∷ []) at;
}

notify-Added :
    (recorders : List ℕ) (netif : ℕ) (frame : Bytes) (was_forwarded : Bool) (w : Frames)
    → ((self : ℕ) → w.own_frames self ≡ none)
    → (w₁ : Frames) × (notify (map recorder recorders) netif frame was_forwarded w ≡ done w₁ tt)
      × Added (for_each recorders frame) w w₁
unfolding append_at
notify-Added [] netif frame was_forwarded w none_own = (w, refl, Added-none w none_own)
notify-Added (r ∷ rs) netif frame was_forwarded w none_own =
    let one = append_at-Added (frames_of r w) frame w none_own (frames_of-class r w none_own) in
    let (w₁, told, rest) =
      notify-Added rs netif frame was_forwarded (append_at (frames_of r w) frame w) none_own in
    (w₁, told, Added-trans (frame ∷ []) (for_each rs frame) w _ w₁ one rest)

tell_all-Added :
    (recorders : List ℕ) (ts : List Told) (w : Frames)
    → ((self : ℕ) → w.own_frames self ≡ none)
    → (w₁ : Frames) × (tell_all recorders ts w ≡ done w₁ tt) × Added (all_told recorders ts) w w₁
tell_all-Added recorders [] w none_own = (w, refl, Added-none w none_own)
tell_all-Added recorders (t ∷ ts) w none_own =
    let (w₁, now, first) = notify-Added recorders t.netif t.frame t.was_forwarded w none_own in
    let (w₂, later, rest) = tell_all-Added recorders ts w₁ first.none_own in
    (
      w₂,
      ap (λ r. and_then r (λ _ w₃. tell_all recorders ts w₃)) now ∙ later,
      Added-trans (for_each recorders t.frame) (all_told recorders ts) w w₁ w₂ first rest,
    )

-- While no recorder has a list of its own: when a bus with several recorders has told them frames,
-- each recorder, on this bus or not, shows every frame once for each recorder on the bus, in the
-- order of telling, forwarded or not, behind what it showed before.
pub tell_all-recorded_frames :
    (recorders : List ℕ) (ts : List Told) (w : Frames)
    → ((self : ℕ) → w.own_frames self ≡ none)
    → (w₁ : Frames) × (tell_all recorders ts w ≡ done w₁ tt)
      × ((self : ℕ) → recorded_frames self w₁ ≡ recorded_frames self w ++ all_told recorders ts)
tell_all-recorded_frames recorders ts w none_own =
    let (w₁, told, all) = tell_all-Added recorders ts w none_own in
    (
      w₁,
      told,
      λ self.
          ap w₁.lists (frames_of-class self w₁ all.none_own)
          ∙ all.added
          ∙ ap (λ l. w.lists l ++ all_told recorders ts) (sym (frames_of-class self w none_own)),
    )
