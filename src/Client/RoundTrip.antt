-- ===== src/Client/RoundTrip.antt =====
-- A packet that `proto_send_packet` writes to a connection and `proto_recv_packet` of
-- src/protocol.c reads at the other end.
use multi_threaded_tic_tac_t.Base.{
  ℕ, ◌+◌, ◌%◌, ◌<◌, ◌≡◌, false, Option, none, some, List, [], ◌∷◌, ◌++◌, arith, length,
}
use multi_threaded_tic_tac_t.Protocol.{
  Header, header_bytes, is_invalid_packet, ntohs, htons, payload_bytes, Readn, proto_recv_packet,
}
use multi_threaded_tic_tac_t.Protocol.Wire.{
  IsHeader, ReadsAll, arrived, payload_length, recv-send, ntohs-htons,
}
use multi_threaded_tic_tac_t.World.{Env, World, written, done}
use multi_threaded_tic_tac_t.Client.{clock_gettime, rio_writen, proto_send_packet, write_payload}
use multi_threaded_tic_tac_t.Client.Sending.{AllWritten, stamped}

-- The bytes of the calls of `rio_writen`, the last call first, as they come out of the connection.
unfoldable pub wire : List (ℕ × List ℕ) → List ℕ
wire [] = []
wire ((fd, bytes) ∷ earlier) = wire earlier ++ bytes

module _ (env : Env) (ok : AllWritten env) (readn : Readn) (all : ReadsAll readn) (w : World)
    (fd : ℕ) (h old : Header) (rest : List ℕ) (f : IsHeader h) (fresh : w.sent ≡ []) where
  abbrev sec : ℕ
  sec = (env.clock w.writes).0 % 4294967296

  abbrev nsec : ℕ
  nsec = (env.clock w.writes).1 % 4294967296

  sent_header :
      is_invalid_packet h none ≡ false
      → h.size ≡ htons 0
      → proto_send_packet env fd h none w
        ≡ done written
            (record w { writes = w.writes + 1; sent = (fd, stamped env w.writes h) ∷ [] })
  unfolding proto_send_packet write_payload clock_gettime rio_writen
  sent_header v e = ground (arith, ok w.writes, ntohs-htons 0)

  sent_both :
      (p : List ℕ)
      → is_invalid_packet h (some p) ≡ false
      → h.size ≡ htons (length p)
      → length p < 65536
      → proto_send_packet env fd h (some p) w
        ≡ done written (record w {
          writes = w.writes + 1 + 1;
          sent = (fd, payload_bytes h (some p)) ∷ (fd, stamped env w.writes h) ∷ [];
        })
  unfolding proto_send_packet write_payload clock_gettime rio_writen is_invalid_packet
  sent_both p v e lt = ground (arith, ok w.writes, ok (w.writes + 1), ntohs-htons (length p))

  -- What is written to a connection arrives at its other end: where every write succeeds and the
  -- size field is the payload's length, the bytes that `proto_send_packet` writes, with others
  -- behind them, are read as the same type, id, role and payload, with the length and the time in
  -- host order, and the bytes behind are left.
  pub recv-proto_send_packet :
      (payload : Option (List ℕ))
      → h.size ≡ htons (payload_length payload)
      → payload_length payload < 65536
      → is_invalid_packet h payload ≡ false
      → (v : World) × (proto_send_packet env fd h payload w ≡ done written v)
        × (proto_recv_packet readn old (wire v.sent ++ rest)
            ≡ some (record { header = arrived sec nsec h payload; payload = payload; rest = rest }))
  unfolding wire payload_bytes header_bytes ntohs
  recv-proto_send_packet none e lt v = (
    record w { writes = w.writes + 1; sent = (fd, stamped env w.writes h) ∷ [] },
    sent_header v e,
    recv-send readn h old none sec nsec rest all f e lt v (omega arith) (omega arith),
  )
  recv-proto_send_packet (some p) e lt v = (
    record w {
      writes = w.writes + 1 + 1;
      sent = (fd, payload_bytes h (some p)) ∷ (fd, stamped env w.writes h) ∷ [];
    },
    sent_both p v e lt,
    recv-send readn h old (some p) sec nsec rest all f e lt v (omega arith) (omega arith),
  )
