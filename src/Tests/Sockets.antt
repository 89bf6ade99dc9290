-- ===== src/Tests/Sockets.antt =====
-- src/flame/net/udp_socket.cpp: a socket that is bound, receives a packet and is closed while the
-- coroutine of the next recv() waits.
use php_flame.Prelude.{true, false, none, [], ◌∷◌, codes}
use php_flame.Net.UdpSocket.{Socket, next_packet, next}

abbrev served : Socket
served = record {
  sck = false;
  co = none;
  init = true;
  bound = true;
  receiving = false;
  requests = [];
  events = next_packet 3 (codes "ping") ∷ next 4 ∷ [];
  released = 1;
}
