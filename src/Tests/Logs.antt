-- ===== src/Tests/Logs.antt =====
-- src/flame/log/logger.cpp: a logger that writes to a file.
use php_flame.Prelude.{refl, true, [], codes, same}
use php_flame.Log.Logger.{
  Logger, logger, opened, rotate_to, rotate, rotate_in, open_file, close, close_file, Reach, opens,
}

abbrev to_file : Logger
to_file = record {
  path = codes "/var/log/app";
  file = opened 9;
  pipe = true;
  requests = [];
  events = [];
}

to_file-Reach : Reach to_file
unfolding logger rotate_to rotate rotate_in open_file close close_file same
to_file-Reach = opens (codes "/var/log/app") 9 refl
