-- ===== src/Stack/Tests/Makers.antt =====
-- Two stacks that make objects.
use mathlib.Core.List.{Mem, not-mem-nil, mem_of_ne_of_mem}
use py_lwip.Prelude.Totals.{total}
use py_lwip.Prelude.{◌≤◌, suc, ℕ_discrete, arith, ℕ, ◌≡◌, refl, Bool, true, none, List, [], ◌∷◌}
use py_lwip.Stack.Functions.{FunctionName, lwip_init}
use py_lwip.Stack.Makers.{
  StackCall, init_of, allocator_of, ping_client_of, socket_of, Made, run_stacks, new_world, init,
  make_allocator, make_ping_client, make_socket_object,
}
use py_lwip.Stack.Makers.Isolated.{Separate}
use py_lwip.Stack.Makers.Isolated.Steps.{run_stacks-Separate}
use py_lwip.Utility.Ctypes.{FunctionWrapper, wrap_function}

abbrev all_there : FunctionName → Bool
all_there name = true

abbrev nothing : FunctionWrapper FunctionName
nothing = record { library = 0; func_name = lwip_init; restype = none; argtypes = none }

-- The stack 2 is not initialized.
abbrev two_stacks : List StackCall
two_stacks =
    init_of 0 ∷ init_of 1 ∷ ping_client_of 1 ∷ allocator_of 2 ∷ socket_of 0 2 ∷ socket_of 0 1 ∷ []

-- tempfile finds a name behind all that there are.
abbrev behind_all : List ℕ → ℕ
behind_all files = suc (total (λ n. n) files)

le-total : (n : ℕ) (files : List ℕ) → Mem n files → n ≤ total (λ n. n) files
le-total n [] m = absurd (not-mem-nil m)
le-total n (file ∷ files) m = elim (ℕ_discrete n file) [
  | yes here ↦ omega arith
  | no other ↦ let later = le-total n files (mem_of_ne_of_mem other m) in omega arith
]

behind_all-fresh : (files : List ℕ) → ¬ Mem (behind_all files) files
behind_all-fresh files m = let le = le-total (behind_all files) files m in omega arith

abbrev libraries : List Made → List ℕ
libraries [] = []
libraries (m ∷ ms) = m.library ∷ libraries ms

libraries-two_stacks :
    libraries (run_stacks behind_all all_there two_stacks (new_world nothing []) []).1
    ≡ 1 ∷ 2 ∷ 2 ∷ 1 ∷ []
unfolding init make_allocator make_ping_client make_socket_object wrap_function
libraries-two_stacks = refl

run_stacks-Separate_example :
    Separate (run_stacks behind_all all_there two_stacks (new_world nothing []) [])
run_stacks-Separate_example =
    run_stacks-Separate behind_all behind_all-fresh all_there two_stacks nothing []
