-- ===== src/Stack/Allocator/Sizes.antt =====
-- How much of the data comes into a packet buffer of lwip_py/stack/memory_allocator.py.
use py_lwip.Prelude.{
  ℕ, ◌%◌, ◌≤◌, ◌<◌, ◌≡◌, ◌↔◌, refl, ap, Option, none, some, length, take, take-all, length-take-le,
  arith,
}
use py_lwip.Prelude.Ran.{Ran, done, raised, and_then}
use py_lwip.Stack.Lwip.{Bytes, Lwip}
use py_lwip.Stack.Allocator.{
  uint16, contents, allocate_raw_pbuf_from_data, take_transport, allocate_transport_pbuf_from_data,
}

-- What the documentation of lwIP says: pbuf_alloc returns a chain whose length in all is the one asked
-- for, and pbuf_take, given as many bytes as that, fills the chain with them. `chain` is what the
-- pbufs of a chain hold together, `tot_len` the field of its first pbuf.
pub record Fills {L : Type 0} (lwip : Lwip L) (tot_len : L → ℕ → ℕ) (chain : L → ℕ → Bytes)
    : Type 0 where
  pub allocates :
      (layer size kind : ℕ) (w : L) (pbuf : ℕ)
      → (lwip.pbuf_alloc layer size kind w).1 ≡ some pbuf
      → tot_len (lwip.pbuf_alloc layer size kind w).0 pbuf ≡ size
  pub fills :
      (pbuf size : ℕ) (bytes : Bytes) (w : L)
      → tot_len w pbuf ≡ size
      → size ≤ length bytes
      → chain (lwip.pbuf_take (some pbuf) bytes size w).0 pbuf ≡ take size bytes

module _ {L : Type 0} (chain : L → ℕ → Bytes) where
  -- What the chain holds after a call that returns it.
  abbrev pub HoldsCut : Bytes → Ran L ℕ → Type 0
  HoldsCut bytes (done w pbuf) =
      (chain w pbuf ≡ take (length bytes % 65536) bytes)
      × ((chain w pbuf ≡ bytes) ↔ (length bytes < 65536))
  HoldsCut bytes (raised w x) = Unit

cut_iff : (bytes : Bytes) → (take (length bytes % 65536) bytes ≡ bytes) ↔ (length bytes < 65536)
cut_iff bytes = (
  λ e. let short = length-take-le (length bytes % 65536) bytes in omega (arith, ap length e),
  λ fits. take-all (length bytes % 65536) bytes (omega arith),
)

module _ {L : Type 0} (lwip : Lwip L) (tot_len : L → ℕ → ℕ) (chain : L → ℕ → Bytes)
    (fills : Fills lwip tot_len chain) where
  filled-HoldsCut :
      (bytes : Bytes) (pbuf : ℕ) (w : L)
      → tot_len w pbuf ≡ uint16 (length bytes)
      → HoldsCut chain bytes
          (done (lwip.pbuf_take (some pbuf) bytes (uint16 (length bytes)) w).0 pbuf)
  filled-HoldsCut bytes pbuf w sized =
      rw (fills.fills pbuf (length bytes % 65536) bytes w sized (omega arith)) (refl, cut_iff bytes)

  raw-HoldsCut :
      (bytes : Bytes) (r : L × Option ℕ)
      → ((p : ℕ) → r.1 ≡ some p → tot_len r.0 p ≡ uint16 (length bytes))
      → HoldsCut chain bytes (
          and_then
            (contents r)
            (λ pbuf w. done (lwip.pbuf_take (some pbuf) bytes (uint16 (length bytes)) w).0 pbuf))
  raw-HoldsCut bytes (w, none) sized = tt
  raw-HoldsCut bytes (w, some pbuf) sized = filled-HoldsCut bytes pbuf w (sized pbuf refl)

  transport-HoldsCut :
      (bytes : Bytes) (r : L × Option ℕ)
      → ((p : ℕ) → r.1 ≡ some p → tot_len r.0 p ≡ uint16 (length bytes))
      → HoldsCut chain bytes (take_transport lwip bytes (length bytes) r)
  transport-HoldsCut bytes (w, none) sized = tt
  transport-HoldsCut bytes (w, some pbuf) sized = filled-HoldsCut bytes pbuf w (sized pbuf refl)

  -- A chain that is returned for data, of either kind, holds the first of the bytes, as many as their
  -- number modulo 65536; so it holds all of them exactly if there are less than 65536. This asks for
  -- a library that allocates chains of the length asked for and fills them.
  pub allocate_from_data-HoldsCut :
      (bytes : Bytes) (w : L)
      → HoldsCut chain bytes (allocate_raw_pbuf_from_data lwip bytes none w)
        × HoldsCut chain bytes (allocate_transport_pbuf_from_data lwip bytes none w)
  allocate_from_data-HoldsCut bytes w = (
    raw-HoldsCut bytes (lwip.pbuf_alloc 1 (uint16 (length bytes)) 386 w)
        (λ p e. fills.allocates 1 (uint16 (length bytes)) 386 w p e),
    transport-HoldsCut bytes (lwip.pbuf_alloc 74 (uint16 (length bytes)) 640 w)
        (λ p e. fills.allocates 74 (uint16 (length bytes)) 640 w p e),
  )
