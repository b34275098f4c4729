-- ===== src/Server/Arriving.antt =====
-- The loop of src/server.c over the packets that arrive ends: a packet takes at least one byte.
use multi_threaded_tic_tac_t.Base.{
  ℕ, zero, suc, ◌+◌, ◌≤◌, ◌<◌, ◌≡◌, inl, inr, some, List, ◌∷◌, arith, length, Option-cases, ap,
}
use multi_threaded_tic_tac_t.Protocol.{
  Header, Readn, Received, recv_payload, proto_recv_packet, header_size, header_bytes,
  header_of_bytes, overlay, to_host,
}
use multi_threaded_tic_tac_t.Server.{arriving}

-- What is documented of `Rio_readn`: it takes the bytes that it returns off the input.
abbrev pub Consumes : Readn → Type 0
Consumes readn = (n : ℕ) (s : List ℕ) → length (readn n s).0 + length (readn n s).1 ≡ length s

module _ (readn : Readn) (consumes : Consumes readn) where
  payload_shorter :
      (h : Header) (input : List ℕ) (r : Received)
      → recv_payload readn h input ≡ some r
      → length r.rest ≤ length input
  unfolding recv_payload
  payload_shorter h input r e = ground (arith, consumes h.size input)

  packet_shorter :
      (hdr : Header) (input : List ℕ) (r : Received)
      → proto_recv_packet readn hdr input ≡ some r
      → length r.rest < length input
  unfolding proto_recv_packet
  packet_shorter hdr input r e =
      let got = (readn header_size input).0 in
      let h = to_host (header_of_bytes (overlay got (header_bytes hdr))) in
      ground (arith, consumes header_size input, payload_shorter h (readn header_size input).1 r)

  -- Where the fuel is more than the bytes that come, more fuel changes nothing: every packet is
  -- read.
  pub arriving_enough :
      (fuel : ℕ) (hdr : Header) (input : List ℕ)
      → length input < fuel
      → arriving readn fuel hdr input ≡ arriving readn (suc fuel) hdr input
  unfolding arriving
  arriving_enough zero hdr input h = absurd (omega arith)
  arriving_enough (suc fuel) hdr input h = elim (Option-cases (proto_recv_packet readn hdr input)) [
    | inl ended ↦ rw (ended, arriving)
    | inr (r, got) ↦
        let later =
          arriving_enough fuel r.header r.rest (omega (arith, packet_shorter hdr input r got)) in
        rw (got, arriving) (ap (λ ps. (r.header, r.payload) ∷ ps) later)
  ]
