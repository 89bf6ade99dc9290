-- ===== src/Net/UdpSocket/Receiving.antt =====
-- When a socket receives, and when it is released.
use php_flame.Prelude.{Option, none, some}
use php_flame.Net.UdpSocket.{Socket}

-- Where it is defined.
abbrev Settles : (Socket → Type 0) → Option Socket → Type 0
Settles P none = Unit
Settles P (some s) = P s
