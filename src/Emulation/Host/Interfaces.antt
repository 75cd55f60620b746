-- ===== src/Emulation/Host/Interfaces.antt =====
-- The interfaces of a host by their names.
use mathlib.Core.Path.{subst}
use py_lwip.Prelude.{ℕ, suc, ◌≡◌, ◌≢◌, refl, sym, ap, ◌∙◌, Option, none, some, some-injective}
use py_lwip.Prelude.Dict.{Str, lookup-insert_self, lookup-insert_ne}
use py_lwip.Scheduler.Executor.{update}
use py_lwip.Scheduler.Executor.Ledger.{update_self, update_ne}
use py_lwip.Utility.Address.{bitwise}
use py_lwip.Emulation.Host.{
  Host, add_network_interface, if_addresses, make_prepared, prepare, address_if_any, get_interface,
}
use py_lwip.Stack.Lwip.{Ip4}
use py_lwip.Stack.Address.{ip_v4_addr}
use py_lwip.Stack.NetIf.{NetIf, NetIfCalls, new_netif}
use py_lwip.Stack.LwipStack.{Heap}

-- The new interface i of a host: it is a new object, found under its name, and set to the flag
-- ETH_ARP alone; the other names and objects are as they were.
pub record Registered (name : Str) (host : Host) (h : Heap) (host' : Host) (h' : Heap) (i : ℕ)
    : Type 0 where
  pub is_new : (i ≡ h.next_netif) × (h'.next_netif ≡ suc i)
  pub found : get_interface name host' ≡ some i
  pub others : (k : Str) → name ≢ k → get_interface k host' ≡ get_interface k host
  pub flags : (h'.netifs i).flags ≡ 8
  pub kept : (j : ℕ) → i ≢ j → h'.netifs j ≡ h.netifs j

module _ (calls : NetIfCalls) where
  prepare-flags :
      (ip : Ip4) (mask gateway : Option Ip4) (n : NetIf)
      → (prepare calls ip mask gateway n).flags ≡ 8
  unfolding bitwise
  prepare-flags ip mask gateway n = refl

  make_prepared-Registered :
      (name : Str) (ip : Ip4) (mask gateway : Option Ip4) (host : Host) (h : Heap)
      → let r = make_prepared calls name ip mask gateway host h in
        Registered name host h r.0 r.1 r.2
  make_prepared-Registered name ip mask gateway host h =
      let i = h.next_netif in
      let netifs₁ = update h.netifs i (new_netif name) in
      let n = prepare calls ip mask gateway (netifs₁ i) in
      record {
        is_new = (refl, refl);
        found = lookup-insert_self host.stack name i;
        others = λ k other. lookup-insert_ne host.stack name k i other;
        flags =
            ap (λ (n : NetIf). n.flags) (update_self netifs₁ i n)
            ∙ prepare-flags ip mask gateway (netifs₁ i);
        kept = λ j other.
            update_ne netifs₁ i n j (λ e. other (sym e))
            ∙ update_ne h.netifs i (new_netif name) j (λ e. other (sym e));
      }

  if_addresses-Registered :
      (name : Str) (ip : Option Ip4) (mask gateway : Option (Option Ip4)) (host : Host) (h : Heap)
      (host' : Host) (h' : Heap) (i : ℕ)
      → if_addresses calls name ip mask gateway host h ≡ some (host', h', i)
      → Registered name host h host' h' i
  if_addresses-Registered name none mask gateway host h host' h' i e = cc
  if_addresses-Registered name (some ip) none gateway host h host' h' i e = cc
  if_addresses-Registered name (some ip) (some mask) none host h host' h' i e = cc
  if_addresses-Registered name (some ip) (some mask) (some gateway) host h host' h' i e =
      subst (λ r. Registered name host h r.0 r.1 r.2) (some-injective _ _ e)
        (make_prepared-Registered name ip mask gateway host h)

  -- When add_network_interface returns, the new interface is found under its name and the other
  -- interfaces are untouched; whatever the library set, its flags are ETH_ARP alone, so it is down.
  pub add_network_interface-Registered :
      (name address : Str) (mask gateway : Option Str) (host : Host) (h : Heap) (host' : Host)
      (h' : Heap) (i : ℕ)
      → add_network_interface calls name address mask gateway host h ≡ some (host', h', i)
      → Registered name host h host' h' i
  add_network_interface-Registered name address mask gateway host h host' h' i e =
      if_addresses-Registered name (ip_v4_addr address) (address_if_any mask)
        (address_if_any gateway) host h host' h' i e
