-- ===== src/Stack/Functions.antt =====
-- The functions of lwIP that the classes of lwip_py/stack wrap, with the types that they give them.
use py_lwip.Prelude.{none, some, List, [], ◌∷◌}
use py_lwip.Utility.Ctypes.{
  c_int8, c_uint8, c_uint16, c_int64, c_void_p, pointer, callback_type, pbuf_struct, udp_pcb_struct,
  netif_struct, ip_v4_addr_struct, ip_addr_struct, udp_recv_fn, ping_callback_fn, netif_init_fn,
  netif_input_fn, Signature,
}

pub data FunctionName : Type 0 where
  sys_check_timeouts lwip_init pbuf_alloc pbuf_take pbuf_free udp_new_ip_type udp_bind udp_recv :
      FunctionName
  udp_sendto ping_init ping_send_now set_ping_callback netif_add etharp_output : FunctionName
  ethernet_input : FunctionName

abbrev pub Wrap : Type 0
Wrap = Signature FunctionName

abbrev pub timeouts_functions : List Wrap
timeouts_functions =
    record { func_name = sys_check_timeouts; res_type = none; arg_types = none } ∷ []

abbrev pub allocator_functions : List Wrap
allocator_functions =
    record {
      func_name = pbuf_alloc;
      res_type = some (pointer pbuf_struct);
      arg_types = some (c_int64 ∷ c_uint16 ∷ c_int64 ∷ []);
    }
    ∷ record {
      func_name = pbuf_take;
      res_type = some c_int8;
      arg_types = some (pointer pbuf_struct ∷ c_void_p ∷ c_uint16 ∷ []);
    }
    ∷ record {
      func_name = pbuf_free;
      res_type = some c_uint8;
      arg_types = some (pointer pbuf_struct ∷ []);
    }
    ∷ []

-- The functions of a socket itself; its allocator is made before.
abbrev pub socket_functions : List Wrap
socket_functions =
    record {
      func_name = udp_new_ip_type;
      res_type = some (pointer udp_pcb_struct);
      arg_types = some (c_uint8 ∷ []);
    }
    ∷ record {
      func_name = udp_bind;
      res_type = some c_int8;
      arg_types = some (pointer udp_pcb_struct ∷ pointer ip_v4_addr_struct ∷ c_uint16 ∷ []);
    }
    ∷ record {
      func_name = udp_recv;
      res_type = none;
      arg_types = some (pointer udp_pcb_struct ∷ callback_type udp_recv_fn ∷ c_void_p ∷ []);
    }
    ∷ record {
      func_name = udp_sendto;
      res_type = some c_int8;
      arg_types = some (
          pointer udp_pcb_struct ∷ pointer pbuf_struct ∷ pointer ip_v4_addr_struct ∷ c_uint16 ∷ []);
    }
    ∷ []

abbrev pub ping_functions : List Wrap
ping_functions =
    record {
      func_name = ping_init;
      res_type = none;
      arg_types = some (pointer ip_addr_struct ∷ []);
    }
    ∷ record { func_name = ping_send_now; res_type = none; arg_types = none }
    ∷ record {
      func_name = set_ping_callback;
      res_type = none;
      arg_types = some (callback_type ping_callback_fn ∷ []);
    }
    ∷ []

abbrev pub netif_functions : List Wrap
netif_functions =
    record {
      func_name = netif_add;
      res_type = some (pointer netif_struct);
      arg_types = some (
          pointer netif_struct
          ∷ pointer ip_v4_addr_struct
          ∷ pointer ip_v4_addr_struct
          ∷ pointer ip_v4_addr_struct
          ∷ c_void_p
          ∷ callback_type netif_init_fn
          ∷ callback_type netif_input_fn
          ∷ []);
    }
    ∷ record {
      func_name = etharp_output;
      res_type = some c_int8;
      arg_types =
          some (pointer netif_struct ∷ pointer pbuf_struct ∷ pointer ip_v4_addr_struct ∷ []);
    }
    ∷ record {
      func_name = ethernet_input;
      res_type = some c_int8;
      arg_types = some (pointer pbuf_struct ∷ pointer netif_struct ∷ []);
    }
    ∷ []
