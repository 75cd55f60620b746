-- ===== src/Stack/Tests/Buffers.antt =====
-- Data in packet buffers, with a library that is a memory.
use py_lwip.Prelude.{suc, leb, if◌then◌else◌, ℕ, Option, none, some, [], ◌∷◌, take, arith}
use py_lwip.Prelude.Int.{ℤ, pos, negsuc}
use py_lwip.Scheduler.Executor.{update}
use py_lwip.Stack.Lwip.{Bytes, Lwip}
use py_lwip.Stack.Allocator.{allocate_raw_pbuf_from_data, allocate_transport_pbuf_from_data}
use py_lwip.Stack.Allocator.Sizes.{Fills, HoldsCut, allocate_from_data-HoldsCut}

-- What each chain holds, and how long it is; pbuf_take refuses more than that.
pub record Memory : Type 0 where
  held : ℕ → Bytes
  lengths : ℕ → ℕ
  next : ℕ

abbrev place : Option ℕ → Bytes → ℕ → Memory → Memory × ℤ
place none bytes size w = (w, negsuc 15)
place (some pbuf) bytes size w =
    if leb size (w.lengths pbuf)
    then (record w { held = update w.held pbuf (take size bytes) }, pos 0)
    else (w, negsuc 0)

abbrev memory : Lwip Memory
memory = record {
  pbuf_alloc = λ layer size kind w.
      (record w { lengths = update w.lengths w.next size; next = suc w.next }, some w.next);
  pbuf_take = place;
  pbuf_free = λ pbuf w. (w, 1);
  payload = λ w pbuf. w.held pbuf;
  udp_new_ip_type = λ kind w. (w, some 0);
  udp_bind = λ pcb ip port w. (w, pos 0);
  udp_recv = λ pcb client w. w;
  udp_sendto = λ pcb pbuf ip port w. (w, pos 0);
}

memory-Fills : Fills memory (λ w. w.lengths) (λ w. w.held)
memory-Fills = record {
  allocates = λ layer size kind w pbuf e. ground arith;
  fills = λ pbuf size bytes w sized fits. ground arith;
}

abbrev empty : Memory
empty = record { held = λ p. []; lengths = λ p. 0; next = 0 }

allocate_from_data-HoldsCut_example :
    HoldsCut (λ w. w.held) (7 ∷ 8 ∷ []) (allocate_raw_pbuf_from_data memory (7 ∷ 8 ∷ []) none empty)
    × HoldsCut
        (λ w. w.held)
        (7 ∷ 8 ∷ [])
        (allocate_transport_pbuf_from_data memory (7 ∷ 8 ∷ []) none empty)
allocate_from_data-HoldsCut_example =
    allocate_from_data-HoldsCut memory (λ w. w.lengths) (λ w. w.held) memory-Fills (7 ∷ 8 ∷ [])
      empty
