-- ===== src/Protocol/Wire.antt =====
-- Round trips of src/protocol.c: byte orders, the header in memory, and a packet that
-- `proto_send_packet` writes and `proto_recv_packet` reads.
use multi_threaded_tic_tac_t.Base.{
  ℕ, ◌+◌, ◌*◌, ◌/◌, ◌%◌, ◌≤◌, ◌<◌, ◌≡◌, refl, ◌≢◌, false, Option, none, some, List, ◌++◌, arith,
  length, take, drop, take-length, take-append, drop-append, length-append,
}
use multi_threaded_tic_tac_t.Protocol.{
  Header, htons, ntohs, htonl, ntohl, header_bytes, header_of_bytes, is_invalid_packet, stamp,
  payload_bytes, Readn, overlay, to_host, recv_payload, proto_recv_packet,
}

pub ntohs-htons : (x : ℕ) → x < 65536 → ntohs (htons x) ≡ x
unfolding ntohs
ntohs-htons x h = omega arith

pub ntohl-htonl : (x : ℕ) → x < 4294967296 → ntohl (htonl x) ≡ x
unfolding ntohl
ntohl-htonl x h = omega arith

htons-lt : (x : ℕ) → htons x < 65536
unfolding htons
htons-lt x = omega arith

htonl-lt : (x : ℕ) → htonl x < 4294967296
unfolding htonl
htonl-lt x = omega arith

-- The fields fit their widths.
pub record IsHeader (h : Header) : Type 0 where
  pub type_fits : h.type < 256
  pub id_fits : h.id < 256
  pub role_fits : h.role < 256
  pub size_fits : h.size < 65536
  pub sec_fits : h.timestamp_sec < 4294967296
  pub nsec_fits : h.timestamp_nsec < 4294967296

word16-bytes16 : (x : ℕ) → x < 65536 → x % 256 + 256 * ((x / 256) % 256) ≡ x
word16-bytes16 x h = omega arith

word32-bytes32 :
    (x : ℕ)
    → x < 4294967296
    → (x % 256)
        + 256 * ((x / 256) % 256)
        + 65536 * ((x / 65536) % 256)
        + 16777216 * ((x / 16777216) % 256)
      ≡ x
word32-bytes32 x h = omega arith

pub header_of_bytes-header_bytes : (h : Header) → IsHeader h → header_of_bytes (header_bytes h) ≡ h
unfolding header_of_bytes header_bytes
header_of_bytes-header_bytes h f = rw (
  word16-bytes16 h.size f.size_fits,
  word32-bytes32 h.timestamp_sec f.sec_fits,
  word32-bytes32 h.timestamp_nsec f.nsec_fits,
)

-- What is documented of `Rio_readn`: where enough bytes come, it returns the number asked for.
abbrev pub ReadsAll : Readn → Type 0
ReadsAll readn = (n : ℕ) (s : List ℕ) → n ≤ length s → readn n s ≡ (take n s, drop n s)

readn-append :
    (readn : Readn) → ReadsAll readn → (xs ys : List ℕ) → readn (length xs) (xs ++ ys) ≡ (xs, ys)
readn-append readn h xs ys =
    rw (h (length xs) (xs ++ ys) (omega (arith, length-append xs ys)), take-append, drop-append)

length-header_bytes : (h : Header) → length (header_bytes h) ≡ 16
unfolding header_bytes
length-header_bytes h = refl

overlay-header_bytes :
    (h old : Header) → overlay (header_bytes h) (header_bytes old) ≡ header_bytes h
unfolding overlay header_bytes
overlay-header_bytes h old = refl

abbrev pub payload_length : Option (List ℕ) → ℕ
payload_length none = 0
payload_length (some p) = length p

-- The header as the receiver gets it: the payload's length and the time of sending, in host order.
abbrev pub arrived : (sec nsec : ℕ) → Header → Option (List ℕ) → Header
arrived sec nsec h payload = record h {
  size = payload_length payload;
  timestamp_sec = sec;
  timestamp_nsec = nsec;
}

to_host-stamp :
    (h : Header) (payload : Option (List ℕ)) (sec nsec : ℕ)
    → h.size ≡ htons (payload_length payload)
    → payload_length payload < 65536
    → sec < 4294967296
    → nsec < 4294967296
    → to_host (stamp sec nsec h) ≡ arrived sec nsec h payload
unfolding to_host stamp
to_host-stamp h payload sec nsec e a b c =
    rw (e, ntohs-htons (payload_length payload) a, ntohl-htonl sec b, ntohl-htonl nsec c)

stamp-IsHeader : (h : Header) (sec nsec : ℕ) → IsHeader h → IsHeader (stamp sec nsec h)
unfolding stamp
stamp-IsHeader h sec nsec f = record {
  type_fits = f.type_fits;
  id_fits = f.id_fits;
  role_fits = f.role_fits;
  size_fits = f.size_fits;
  sec_fits = htonl-lt sec;
  nsec_fits = htonl-lt nsec;
}

nonempty :
    (h : Header) (p : List ℕ)
    → h.size ≡ htons (length p)
    → length p < 65536
    → is_invalid_packet h (some p) ≡ false
    → length p ≢ 0
unfolding is_invalid_packet
nonempty h p e a v = ground (arith, ntohs-htons (length p) a)

recv_payload-arrived :
    (readn : Readn) (h : Header) (payload : Option (List ℕ)) (sec nsec : ℕ) (rest : List ℕ)
    → ReadsAll readn
    → h.size ≡ htons (payload_length payload)
    → payload_length payload < 65536
    → is_invalid_packet h payload ≡ false
    → recv_payload readn (arrived sec nsec h payload) (payload_bytes h payload ++ rest)
      ≡ some (record { header = arrived sec nsec h payload; payload = payload; rest = rest })
unfolding recv_payload payload_bytes is_invalid_packet
recv_payload-arrived readn h none sec nsec rest all e a v = refl
recv_payload-arrived readn h (some p) sec nsec rest all e a v =
    rw (e, ntohs-htons (length p) a, take-length p, readn-append readn all p rest)
      (ground (arith, nonempty h p e a v))

-- A packet that `proto_send_packet` writes, its size field the payload's length in network order,
-- is what `proto_recv_packet` reads from the bytes, whatever its buffer held: the same type, id,
-- role and payload, with the payload's length and the time of sending in host order; and the bytes
-- behind the packet are left for the next call.
pub recv-send :
    (readn : Readn) (h old : Header) (payload : Option (List ℕ)) (sec nsec : ℕ) (rest : List ℕ)
    → ReadsAll readn
    → IsHeader h
    → h.size ≡ htons (payload_length payload)
    → payload_length payload < 65536
    → is_invalid_packet h payload ≡ false
    → sec < 4294967296
    → nsec < 4294967296
    → proto_recv_packet readn old
        (header_bytes (stamp sec nsec h) ++ (payload_bytes h payload ++ rest))
      ≡ some (record { header = arrived sec nsec h payload; payload = payload; rest = rest })
unfolding proto_recv_packet
recv-send readn h old payload sec nsec rest all f e a v b c =
    let read =
      readn-append readn all (header_bytes (stamp sec nsec h)) (payload_bytes h payload ++ rest) in
    let read16 = rw (length-header_bytes (stamp sec nsec h)) at read in
    let good = stamp-IsHeader h sec nsec f in
    rw
      (
        read16,
        length-header_bytes (stamp sec nsec h),
        overlay-header_bytes (stamp sec nsec h) old,
        header_of_bytes-header_bytes (stamp sec nsec h) good,
        to_host-stamp h payload sec nsec e a b c,
      )
      (recv_payload-arrived readn h payload sec nsec rest all e a v)
