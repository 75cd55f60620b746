-- ===== src/Utility/Ctypes.antt =====
-- wrap_function of lwip_py/utility/ctypes_helper.py, with what it uses of ctypes: the function
-- objects of loaded libraries.
use py_lwip.Prelude.{ℕ, suc, Bool, Option, none, some, List, [], ◌∷◌, if◌then◌else◌}
use py_lwip.Prelude.Ran.{Ran, done, raised, and_then, attribute_error}
use py_lwip.Scheduler.Executor.{update}

-- The structures and the types of callbacks that the wrappers name.
pub data Pointee : Type 0 where
  pbuf_struct udp_pcb_struct netif_struct ip_v4_addr_struct ip_addr_struct : Pointee

pub data CallbackType : Type 0 where
  udp_recv_fn ping_callback_fn netif_init_fn netif_input_fn : CallbackType

pub data Ctype : Type 0 where
  c_int c_int8 c_uint8 c_uint16 c_int64 c_void_p : Ctype
  pointer : Pointee → Ctype
  callback_type : CallbackType → Ctype

-- A function object; a `restype` or `argtypes` of None is `none`. `library` is the loaded library.
pub record FunctionWrapper (Name : Type 0) : Type 0 where
  pub library : ℕ
  pub func_name : Name
  pub restype : Option Ctype
  pub argtypes : Option (List Ctype)

-- The function objects by their identity.
pub record Ctypes (Name : Type 0) : Type 0 where
  pub functions : ℕ → FunctionWrapper Name
  pub next_function : ℕ

-- The arguments of a call of wrap_function that follow the library.
pub record Signature (Name : Type 0) : Type 0 where
  pub func_name : Name
  pub res_type : Option Ctype
  pub arg_types : Option (List Ctype)

module _ {Name : Type 0} where
  abbrev pub change_function :
      ℕ → (FunctionWrapper Name → FunctionWrapper Name) → Ctypes Name → Ctypes Name
  change_function k change s = record s {
    functions = update s.functions k (change (s.functions k));
  }

  abbrev pub set_restype : ℕ → Option Ctype → Ctypes Name → Ctypes Name
  set_restype k res_type = change_function k (λ w. record w { restype = res_type })

  abbrev pub set_argtypes : ℕ → Option (List Ctype) → Ctypes Name → Ctypes Name
  set_argtypes k arg_types = change_function k (λ w. record w { argtypes = arg_types })

  -- `__getattr__` of a CDLL, called by its name: a new function object on each call, with the types
  -- that ctypes assumes.
  abbrev pub get_function : ℕ → Name → Ctypes Name → Ctypes Name
  get_function lib name s = record s {
    functions =
        update s.functions s.next_function
          (record { library = lib; func_name = name; restype = some c_int; argtypes = none });
    next_function = suc s.next_function;
  }

  -- `exports` are the symbols of the shared object.
  module _ (exports : Name → Bool) where
    unfoldable pub wrap_function :
        ℕ → Name → Option Ctype → Option (List Ctype) → Ctypes Name → Ran (Ctypes Name) ℕ
    wrap_function lib func_name res_type arg_types s =
        if exports func_name
        then done
            (set_argtypes s.next_function arg_types
              (set_restype s.next_function res_type (get_function lib func_name s)))
            s.next_function
        else raised s attribute_error

    -- Calls of wrap_function for one library, as a constructor makes them.
    abbrev pub wrap_functions : ℕ → List (Signature Name) → Ctypes Name → Ran (Ctypes Name) (List ℕ)
    wrap_functions lib [] s = done s []
    wrap_functions lib (c ∷ cs) s =
        and_then (wrap_function lib c.func_name c.res_type c.arg_types s)
          λ k s₁. and_then (wrap_functions lib cs s₁) λ ks s₂. done s₂ (k ∷ ks)
