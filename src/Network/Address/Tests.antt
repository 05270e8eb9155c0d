-- ===== src/Network/Address/Tests.antt =====
-- network/util.go on one address, of a net that knows no other.
use bitmarkd_broadcast_monit.Common.{◌≡◌, ◌≤◌, refl, none, some, Bytes, codes, true, false}
use bitmarkd_broadcast_monit.Common.Int.{pos}
use bitmarkd_broadcast_monit.Network.Address.{
  min_port, max_port, Net, ok, failed, invalid_port_number, Connection, trim, atoi, itoa, find_ip,
  new_connection, canonical_ip_and_port,
}
use bitmarkd_broadcast_monit.Network.Address.Ports.{new_connection-port}

abbrev pub local : Bytes → Net
local port = record {
  Ip = Bytes;
  split_host_port = λ s. some (codes " 127.0.0.1", port);
  parse_ip = λ s. some s;
  lookup_ip = λ s. none;
  is_v4 = λ ip. true;
  ip_string = λ ip. ip;
}

abbrev pub endpoint : Connection (local (codes "2135 "))
endpoint = record { ip = codes "127.0.0.1"; port = 2135 }

canonical_test :
    canonical_ip_and_port (local (codes "2135 ")) endpoint (codes "tcp://")
    ≡ (codes "tcp://127.0.0.1:2135", false)
unfolding canonical_ip_and_port itoa
canonical_test = refl

port_range_test :
    new_connection (local (codes "65536")) (codes "127.0.0.1:65536") ≡ failed invalid_port_number
unfolding new_connection find_ip atoi
port_range_test = refl

new_connection_test :
    new_connection (local (codes "2135 ")) (codes " 127.0.0.1:2135 ") ≡ ok endpoint
unfolding new_connection find_ip atoi
new_connection_test = refl

new_connection-port_example :
    (atoi (trim (codes "2135 ")) ≡ some (pos endpoint.port))
    × (min_port ≤ endpoint.port)
    × (endpoint.port ≤ max_port)
new_connection-port_example =
    new_connection-port (local (codes "2135 ")) (codes " 127.0.0.1:2135 ") (codes " 127.0.0.1")
      (codes "2135 ") endpoint refl new_connection_test
