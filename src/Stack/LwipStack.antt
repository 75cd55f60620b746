-- ===== src/Stack/LwipStack.antt =====
-- Stack of lwip_py/stack/stack.py: the interfaces of one instance of the library. NetIf objects
-- live in a heap, and are known by their place in it.
use py_lwip.Prelude.{ℕ, suc, true, false, Option, none, some, ◌==◌}
use py_lwip.Prelude.Dict.{Str, Dict, insert}
use py_lwip.Scheduler.Executor.{update}
use py_lwip.Stack.NetIf.{NetIf, new_netif}
use py_lwip.Stack.UdpSocket.{UdpSocket, new_socket}

pub record Heap : Type 0 where
  pub netifs : ℕ → NetIf
  pub next_netif : ℕ

abbrev pub Stack : Type 0
Stack = Dict ℕ

abbrev pub change_netif : ℕ → (NetIf → NetIf) → Heap → Heap
change_netif i change h = record h { netifs = update h.netifs i (change (h.netifs i)) }

-- The interface is registered under its name, in place of one with the same name.
abbrev pub make_interface : Str → Stack → Heap → Stack × Heap × ℕ
make_interface name stack h = (
  insert stack name h.next_netif,
  record h {
    netifs = update h.netifs h.next_netif (new_netif name);
    next_netif = suc h.next_netif;
  },
  h.next_netif,
)

abbrev pub sock_dgram : ℕ
sock_dgram = 2

-- `none` is ValueError.
abbrev pub make_socket : {L : Type 0} → ℕ → Option (UdpSocket L)
make_socket socket_type = elim (socket_type == sock_dgram) [ true ↦ some new_socket | false ↦ none ]
