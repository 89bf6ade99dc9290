-- ===== src/Io.antt =====
-- flame\io: the reader and the writer that the sockets share.
pub mod StreamReader
pub mod StreamWriter
