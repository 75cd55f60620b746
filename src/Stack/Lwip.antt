-- ===== src/Stack/Lwip.antt =====
-- The lwIP library as lwip_py/stack calls it through ctypes: a C library, of which only the calls
-- are known here. `L` is its state. A pointer is an identity, and `none` is NULL.
use py_lwip.Prelude.{ℕ, Option, List}
use py_lwip.Prelude.Int.{ℤ}

abbrev pub Bytes : Type 0
Bytes = List ℕ

-- An IpV4Addr by its `addr`, a c_uint32.
abbrev pub Ip4 : Type 0
Ip4 = ℕ

-- The calls on packet buffers and UDP control blocks.
pub record Lwip (L : Type 0) : Type 0 where
  pub pbuf_alloc : (layer length pbuf_type : ℕ) → L → L × Option ℕ
  pub pbuf_take : Option ℕ → Bytes → (length : ℕ) → L → L × ℤ
  pub pbuf_free : ℕ → L → L × ℕ
  pub payload : L → ℕ → Bytes
  pub udp_new_ip_type : ℕ → L → L × Option ℕ
  pub udp_bind : ℕ → Option Ip4 → (port : ℕ) → L → L × ℤ
  pub udp_recv : ℕ → (client : ℕ) → L → L
  pub udp_sendto : Option ℕ → (pbuf : ℕ) → Ip4 → (port : ℕ) → L → L × ℤ
