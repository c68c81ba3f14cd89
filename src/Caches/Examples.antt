-- ===== src/Caches/Examples.antt =====
-- The theorems on the caches at concrete files.
use ithiltir_node.Base.{[], ◌∷◌, Text, codes, pos}
use ithiltir_node.Caches.Conn.{ConnCache}
use ithiltir_node.Caches.Smart.{SmartCache}

abbrev counts_at_nine : ConnCache
counts_at_nine = record {
  schema = pos 1;
  updated_at = 9;
  ttl_seconds = pos 30;
  status = codes "ok";
  tcp_count = pos 4;
  udp_count = pos 2;
}

abbrev disk_at_nine : SmartCache Text
disk_at_nine = record {
  schema = pos 1;
  updated_at = 9;
  ttl_seconds = pos 30;
  status = codes "ok";
  devices = codes "sda" ∷ [];
}
