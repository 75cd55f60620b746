-- ===== src/Prelude/Truth.antt =====
-- The truth value of a Python object in a test, by the special methods of its class.
use py_lwip.Prelude.{ℕ, Bool, true, not, Option, none, some, ◌==◌}

-- An object is known by its identity.
pub record PyClass : Type 0 where
  pub bool_method : Option (ℕ → Bool)
  pub len_method : Option (ℕ → ℕ)

abbrev by_length : Option (ℕ → ℕ) → ℕ → Bool
by_length none object = true
by_length (some len) object = not (len object == 0)

abbrev by_methods : Option (ℕ → Bool) → Option (ℕ → ℕ) → ℕ → Bool
by_methods none len object = by_length len object
by_methods (some bool) len object = bool object

-- `bool(object)`: __bool__ if the class has it, else whether __len__ is not 0, else True.
abbrev pub truth : PyClass → ℕ → Bool
truth class object = by_methods class.bool_method class.len_method object

-- A subclass of ctypes.Structure that only names its fields.
abbrev pub structure : PyClass
structure = record { bool_method = none; len_method = none }
