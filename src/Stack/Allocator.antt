-- ===== src/Stack/Allocator.antt =====
-- Allocator of lwip_py/stack/memory_allocator.py.
pub mod Sizes
use py_lwip.Prelude.{ℕ, ◌%◌, Option, none, some, length, ◌==◌, if◌then◌else◌}
use py_lwip.Prelude.Ran.{value_error, Ran, done, raised, and_then}
use py_lwip.Stack.Lwip.{Bytes, Lwip}

-- ctypes keeps the low 16 bits of an argument of type c_uint16, without a check.
abbrev pub uint16 : ℕ → ℕ
uint16 n = n % 65536

-- `size or len(data_to_place)`: a size of 0 counts as none given.
abbrev pub size_or_length : Option ℕ → Bytes → ℕ
size_or_length none bytes = length bytes
size_or_length (some size) bytes = if size == 0 then length bytes else size

-- `.contents` of a pointer that is NULL raises ValueError.
abbrev pub contents : {L : Type 0} → L × Option ℕ → Ran L ℕ
contents (w, none) = raised w value_error
contents (w, some pbuf) = done w pbuf

module _ {L : Type 0} (lwip : Lwip L) where
  abbrev pub allocate_raw_pbuf : ℕ → L → Ran L ℕ
  allocate_raw_pbuf size w = contents (lwip.pbuf_alloc 1 (uint16 size) 386 w)

  abbrev pub allocate_raw_pbuf_from_data : Bytes → Option ℕ → L → Ran L ℕ
  allocate_raw_pbuf_from_data bytes size w =
      let n = size_or_length size bytes in
      and_then (allocate_raw_pbuf n w)
        (λ pbuf w'. done (lwip.pbuf_take (some pbuf) bytes (uint16 n) w').0 pbuf)

  -- Here pbuf_take is called before the pointer is looked at.
  abbrev pub take_transport : Bytes → ℕ → L × Option ℕ → Ran L ℕ
  take_transport bytes n (w, pbuf) = contents ((lwip.pbuf_take pbuf bytes (uint16 n) w).0, pbuf)

  abbrev pub allocate_transport_pbuf_from_data : Bytes → Option ℕ → L → Ran L ℕ
  allocate_transport_pbuf_from_data bytes size w =
      let n = size_or_length size bytes in
      take_transport bytes n (lwip.pbuf_alloc 74 (uint16 n) 640 w)

  -- The number of pbufs that were released.
  abbrev pub free_pbuf : ℕ → L → L × ℕ
  free_pbuf pbuf w = lwip.pbuf_free pbuf w
