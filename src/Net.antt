-- ===== src/Net.antt =====
-- flame\net: the connections of the servers, their requests and their responses.
pub mod Connection
pub mod Status
pub mod Response
pub mod Request
pub mod Handler
pub mod UdpSocket
pub mod Client
pub mod Acceptor
