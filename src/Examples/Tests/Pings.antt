-- ===== src/Examples/Tests/Pings.antt =====
-- Two applications that ping from one host.
use py_lwip.Prelude.{◌≡◌, false, true, [], ◌∷◌, arith}
use py_lwip.Examples.IcmpPing.{app_after, two_apps}
use py_lwip.Examples.IcmpPing.Overtaken.{two_apps_lem}

two_apps_lem_example :
    ((app_after 0 (two_apps 0 1 (1 ∷ 1 ∷ [])).called).completion ≡ false)
    × ((app_after 1 (two_apps 0 1 (1 ∷ 1 ∷ [])).called).completion ≡ true)
two_apps_lem_example = two_apps_lem 0 1 (1 ∷ 1 ∷ []) (omega arith)
