-- ===== src/Wrapper/Ports.antt =====
-- lib/dlms-wrapper/src/wrapper/wrapper_ports.cpp: the classes of wrapper ports.
use dlms.Prelude.{ℕ, ◌≡◌, Bool, false, ◌&&◌, ◌||◌, not, arith, leb, ◌==◌}
use dlms.Wrapper.Types.{
  no_station, client_management_process, public_client, management_logical_device,
  all_station_broadcast,
}

unfoldable pub is_no_station_wrapper_port : ℕ → Bool
is_no_station_wrapper_port port = port == no_station

unfoldable pub is_client_wrapper_port : ℕ → Bool
is_client_wrapper_port port = leb 0x0001 port && leb port 0x00ff

unfoldable pub is_server_wrapper_port : ℕ → Bool
is_server_wrapper_port port =
    port == management_logical_device || (leb 0x0010 port && leb port all_station_broadcast)

unfoldable pub is_reserved_client_wrapper_port : ℕ → Bool
is_reserved_client_wrapper_port port =
    port == no_station || (port == client_management_process || port == public_client)

unfoldable pub is_reserved_server_wrapper_port : ℕ → Bool
is_reserved_server_wrapper_port port =
    port == no_station
    || (port == management_logical_device
        || ((leb 0x0002 port && leb port 0x000f) || port == all_station_broadcast))

unfoldable pub is_open_client_wrapper_port : ℕ → Bool
is_open_client_wrapper_port port =
    (leb 0x0002 port && leb port 0x000f) || (leb 0x0011 port && leb port 0x00ff)

unfoldable pub is_open_server_wrapper_port : ℕ → Bool
is_open_server_wrapper_port port = leb 0x0010 port && leb port 0x007e

-- The client ports are the reserved and the open client ports other than port 0, and no port is
-- both reserved and open.
pub client_port_classes :
    (port : ℕ)
    → (is_client_wrapper_port port ≡ (
        (is_reserved_client_wrapper_port port || is_open_client_wrapper_port port)
        && not (is_no_station_wrapper_port port)))
      × ((is_reserved_client_wrapper_port port && is_open_client_wrapper_port port) ≡ false)
unfolding is_client_wrapper_port is_reserved_client_wrapper_port is_open_client_wrapper_port
    is_no_station_wrapper_port
client_port_classes port = ground arith

-- The open server ports are the server ports that are not reserved.
pub server_port_classes :
    (port : ℕ)
    → is_open_server_wrapper_port port
      ≡ (is_server_wrapper_port port && not (is_reserved_server_wrapper_port port))
unfolding is_server_wrapper_port is_reserved_server_wrapper_port is_open_server_wrapper_port
server_port_classes port = ground arith
