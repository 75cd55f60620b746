-- ===== src/Stack/Makers.antt =====
-- Stack of lwip_py/stack/stack.py with its library: init loads a copy of the library, and the
-- make_ methods build objects that wrap functions of the copy.
pub mod Bound
pub mod Isolated
use py_lwip.Prelude.{
  ℕ, suc, Bool, true, false, Option, none, some, List, [], ◌∷◌, ◌++◌, ◌==◌, if◌then◌else◌,
}
use py_lwip.Prelude.Ran.{Ran, done, raised, and_then, attribute_error, value_error}
use py_lwip.Scheduler.Executor.{update}
use py_lwip.Stack.Functions.{
  FunctionName, lwip_init, Wrap, timeouts_functions, allocator_functions, socket_functions,
  ping_functions, netif_functions,
}
use py_lwip.Stack.LwipStack.{sock_dgram}
use py_lwip.Utility.Loader.{load_copy}
use py_lwip.Utility.Ctypes.{Ctypes, FunctionWrapper, wrap_functions}

-- `_lwip` and the wrapper of `_sys_check_timeouts`, `none` before init; and `_tmp_lib_copy` of its
-- loader, as each stack has a loader of its own.
pub record LoadedStack : Type 0 where
  pub tmp_lib_copy : Option ℕ
  pub lwip : Option ℕ
  pub sys_check_timeouts : Option ℕ

-- `files` are the files that exist where tempfile puts its own.
pub record World : Type 0 where
  pub ctypes : Ctypes FunctionName
  pub stacks : ℕ → LoadedStack
  pub files : List ℕ

-- An object: the stack that made it, its library, and its wrappers in the order of its signatures.
pub record Made : Type 0 where
  pub maker : ℕ
  pub library : ℕ
  pub signatures : List Wrap
  pub wrappers : List ℕ

abbrev pub new_stack : LoadedStack
new_stack = record { tmp_lib_copy = none; lwip = none; sys_check_timeouts = none }

-- Stacks that are not initialized.
abbrev pub new_world : FunctionWrapper FunctionName → (files : List ℕ) → World
new_world nothing files = record {
  ctypes = record { functions = λ k. nothing; next_function = 0 };
  stacks = λ i. new_stack;
  files = files;
}

abbrev pub with_ctypes : Ctypes FunctionName → World → World
with_ctypes c w = record w { ctypes = c }

-- What the calls of wrap_function give is the new object.
abbrev pub place_object :
    World → ℕ → ℕ → List Wrap → Ran (Ctypes FunctionName) (List ℕ) → Ran World Made
place_object w i lib signatures (done c ks) =
    done (with_ctypes c w)
      (record { maker = i; library = lib; signatures = signatures; wrappers = ks })
place_object w i lib signatures (raised c x) = raised (with_ctypes c w) x

-- `self._lwip = self._library_loader()`, from what the loader answers: the files that exist then and
-- the name of the new copy.
abbrev pub load_library : ℕ → List ℕ × ℕ → World → World
load_library i (files, name) w = record w {
  stacks = update w.stacks i (record (w.stacks i) { lwip = some name; tmp_lib_copy = some name });
  files = files;
}

abbrev pub keep_timeouts : ℕ → Option ℕ → World → World
keep_timeouts i k w = record w {
  stacks = update w.stacks i (record (w.stacks i) { sys_check_timeouts = k });
}

abbrev pub first_of : List ℕ → Option ℕ
first_of [] = none
first_of (k ∷ ks) = some k

module _ (exports : FunctionName → Bool) where
  abbrev pub construct : ℕ → ℕ → List Wrap → World → Ran World Made
  construct i lib signatures w =
      place_object w i lib signatures (wrap_functions exports lib signatures w.ctypes)

  -- A use of `self._lwip`, which is no attribute before init.
  abbrev pub with_lwip : ℕ → Option ℕ → List Wrap → World → Ran World Made
  with_lwip i none signatures w = raised w attribute_error
  with_lwip i (some lib) signatures w = construct i lib signatures w

  unfoldable pub make_allocator : ℕ → World → Ran World Made
  make_allocator i w = with_lwip i (w.stacks i).lwip allocator_functions w

  unfoldable pub make_ping_client : ℕ → World → Ran World Made
  make_ping_client i w = with_lwip i (w.stacks i).lwip ping_functions w

  -- The functions of the interface of make_interface; its registration is in LwipStack.
  unfoldable pub make_interface_object : ℕ → World → Ran World Made
  make_interface_object i w = with_lwip i (w.stacks i).lwip netif_functions w

  -- make_socket; the allocator of the socket is made first.
  unfoldable pub make_socket_object : ℕ → (socket_type : ℕ) → World → Ran World Made
  make_socket_object i socket_type w =
      if socket_type == sock_dgram
      then with_lwip i (w.stacks i).lwip (allocator_functions ++ socket_functions) w
      else raised w value_error

  -- The wrapper of sys_check_timeouts counts as an object; then lwip_init is called.
  unfoldable pub init : (choose : List ℕ → ℕ) → ℕ → World → Ran World Made
  init choose i w =
      let copy = load_copy choose (w.stacks i).tmp_lib_copy w.files in
      and_then (construct i copy.1 timeouts_functions (load_library i copy w)) λ made w₁.
        let w₂ = keep_timeouts i (first_of made.wrappers) w₁ in
        if exports lwip_init then done w₂ made else raised w₂ attribute_error

pub data StackCall : Type 0 where
  init_of allocator_of ping_client_of interface_of : ℕ → StackCall
  socket_of : ℕ → (socket_type : ℕ) → StackCall

-- The caller goes on after an exception; `objects` are those made so far.
abbrev pub after_call : Ran World Made → List Made → World × List Made
after_call (done w made) objects = (w, made ∷ objects)
after_call (raised w x) objects = (w, objects)

module _ (choose : List ℕ → ℕ) (exports : FunctionName → Bool) where
  abbrev pub stack_step : StackCall → World → Ran World Made
  stack_step (init_of i) w = init exports choose i w
  stack_step (allocator_of i) w = make_allocator exports i w
  stack_step (ping_client_of i) w = make_ping_client exports i w
  stack_step (interface_of i) w = make_interface_object exports i w
  stack_step (socket_of i socket_type) w = make_socket_object exports i socket_type w

  abbrev pub run_stacks : List StackCall → World → List Made → World × List Made
  run_stacks [] w objects = (w, objects)
  run_stacks (c ∷ cs) w objects =
      let after = after_call (stack_step c w) objects in
      let (w₁, made) = after in run_stacks cs w₁ made
