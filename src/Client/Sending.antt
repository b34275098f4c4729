-- ===== src/Client/Sending.antt =====
-- What `client_send_packet` of src/client.c does to the memory where every write succeeds.
use multi_threaded_tic_tac_t.Base.{
  ℕ, ◌+◌, ◌%◌, ◌<◌, ◌≡◌, ◌≢◌, false, none, some, List, ◌∷◌, arith, length, take-length,
}
use multi_threaded_tic_tac_t.Objects.{Ptr, null, Client}
use multi_threaded_tic_tac_t.Protocol.{
  PacketType, packet_code, Header, header_bytes, stamp, is_invalid_packet, htons, payload_bytes,
}
use multi_threaded_tic_tac_t.Protocol.Wire.{ntohs-htons}
use multi_threaded_tic_tac_t.World.{
  Env, World, written, done, holds, without, same_mutex, lock, unlock, client_lock, load_client,
}
use multi_threaded_tic_tac_t.Client.{
  client_get_fd, clock_gettime, rio_writen, proto_send_packet, client_send_packet,
}

-- A header by its fields, `id` in 8 bits and the size as it goes out.
abbrev pub packet_of : PacketType → ℕ → ℕ → ℕ → Header
packet_of type id role size = record {
  type = packet_code type;
  id = id % 256;
  role = role;
  size = size;
  timestamp_sec = 0;
  timestamp_nsec = 0;
}

-- The header as it goes out when the n-th write begins.
abbrev pub stamped : Env → ℕ → Header → List ℕ
stamped env n pkt =
    header_bytes (stamp ((env.clock n).0 % 4294967296) ((env.clock n).1 % 4294967296) pkt)

-- The memory after a packet without a payload, and after one with a payload, went out on `fd`.
abbrev pub after_header : Env → ℕ → Header → World → World
after_header env fd pkt w = record w {
  writes = w.writes + 1;
  sent = (fd, stamped env w.writes pkt) ∷ w.sent;
}

abbrev pub after_packet : Env → ℕ → Header → List ℕ → World → World
after_packet env fd pkt payload w = record w {
  writes = w.writes + 1 + 1;
  sent = (fd, payload) ∷ (fd, stamped env w.writes pkt) ∷ w.sent;
}

-- Every write succeeds.
abbrev pub AllWritten : Env → Type 0
AllWritten env = (n : ℕ) → env.write n ≡ written

module _ (env : Env) (ok : AllWritten env) (w : World) (c : Ptr) (k : Client) (pkt : Header)
    (n : c ≢ null) (live : w.clients c ≡ some k) (free : holds (client_lock c) w.held ≡ false) where
  pub send_header :
      pkt.size ≡ htons 0
      → client_send_packet env c pkt none w ≡ done written (after_header env k.fd pkt w)
  unfolding client_send_packet client_get_fd proto_send_packet clock_gettime rio_writen lock unlock
      load_client without same_mutex is_invalid_packet
  send_header e = ground (arith, ok w.writes, ntohs-htons 0)

  pub send_packet :
      (p : List ℕ)
      → pkt.size ≡ htons (length p)
      → length p < 65536
      → length p ≢ 0
      → client_send_packet env c pkt (some p) w ≡ done written (after_packet env k.fd pkt p w)
  unfolding client_send_packet client_get_fd proto_send_packet clock_gettime rio_writen lock unlock
      load_client without same_mutex is_invalid_packet payload_bytes
  send_packet p e lt ne =
      ground (arith, ok w.writes, ok (w.writes + 1), ntohs-htons (length p), take-length p)
