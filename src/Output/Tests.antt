-- ===== src/Output/Tests.antt =====
-- Two recorders on one bus, and one on none.
use py_lwip.Prelude.{ℕ, ◌≡◌, refl, true, false, List, [], ◌∷◌, ◌++◌}
use py_lwip.Prelude.Ran.{done}
use py_lwip.Output.{Frames, no_frames, recorded_frames}
use py_lwip.Output.Shared.{Told, tell_all, all_told, tell_all-recorded_frames}

abbrev two_frames : List Told
two_frames =
    record { netif = 0; frame = 7 ∷ []; was_forwarded = true }
    ∷ record { netif = 1; frame = 8 ∷ []; was_forwarded = false }
    ∷ []

tell_all-recorded_frames_example :
    (w₁ : Frames) × (tell_all (1 ∷ 2 ∷ []) two_frames no_frames ≡ done w₁ tt)
    × ((self : ℕ)
        → recorded_frames self w₁
          ≡ recorded_frames self no_frames ++ all_told (1 ∷ 2 ∷ []) two_frames)
tell_all-recorded_frames_example =
    tell_all-recorded_frames (1 ∷ 2 ∷ []) two_frames no_frames (λ self. refl)
