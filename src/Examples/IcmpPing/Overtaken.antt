-- ===== src/Examples/IcmpPing/Overtaken.antt =====
-- A ping that is overtaken by a ping of another client is never answered.
use py_lwip.Prelude.{
  ℕ, ◌≡◌, ◌≢◌, refl, ◌∙◌, Bool, true, false, none, List, [], ◌∷◌, map, ◌==◌, not, arith,
}
use py_lwip.Stack.PingClient.{Callback, result_arrives}
use py_lwip.Stack.PingClient.Outstanding.{run_one, run_pings_lem}
use py_lwip.Examples.IcmpPing.{ping_from, app_after, two_apps}

-- Without an outstanding ping results change nothing.
run_one-results :
    (results : List ℕ) (answered : List (Callback × Bool))
    → (run_one
        (map result_arrives results)
        (record { outstanding = none; answered = answered })).answered
      ≡ answered
run_one-results [] answered = refl
run_one-results (r ∷ rs) answered = run_one-results rs answered

abbrev pub is_some_result : List ℕ → Bool
is_some_result [] = false
is_some_result (r ∷ rs) = true

-- When two applications ping from one host before there is a result, the first never completes,
-- whatever results come, so that wait_for_completion waits for ever; the second is completed by the
-- first result.
pub two_apps_lem :
    (first second : ℕ) (results : List ℕ)
    → first ≢ second
    → ((app_after first (two_apps first second results).called).completion ≡ false)
      × ((app_after second (two_apps first second results).called).completion
          ≡ is_some_result results)
two_apps_lem first second [] other =
    rw (run_pings_lem (ping_from first ∷ ping_from second ∷ [])) (refl, refl)
two_apps_lem first second (r ∷ rs) other =
    let calls =
      run_pings_lem (ping_from first ∷ ping_from second ∷ map result_arrives (r ∷ rs))
      ∙ run_one-results rs ((second, not (r == 0)) ∷ []) in
    rw calls (ground arith)
