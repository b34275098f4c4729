-- ===== src/Protocol.antt =====
-- include/protocol.h and src/protocol.c: packet types, the header as the C code holds it, its
-- sixteen bytes in memory, and sending and receiving over a connection. Numbers of 8, 16 and 32
-- bits are natural numbers below the power of two. Memory is little-endian; the two gaps that
-- alignment leaves in the struct are zero, as every packet is cleared when it is made.
pub mod Wire
use multi_threaded_tic_tac_t.Base.{
  ℕ, zero, suc, ◌+◌, ◌-◌, ◌*◌, ◌/◌, ◌%◌, ◌^◌, ◌≡◌, refl, Bool, true, false, not, ◌&&◌, ◌||◌, Option,
  none, some, List, [], ◌∷◌, ◌++◌, arith, ◌==◌, if◌then◌else◌, length, take, drop, get_or,
}

pub data PacketType : Type 0 where
  no_pkt login_pkt users_pkt invite_pkt revoke_pkt accept_pkt decline_pkt move_pkt resign_pkt :
      PacketType
  ack_pkt nack_pkt : PacketType
  invited_pkt revoked_pkt accepted_pkt declined_pkt moved_pkt resigned_pkt ended_pkt : PacketType

-- The value of the enumerator.
unfoldable pub packet_code : PacketType → ℕ
packet_code no_pkt = 0
packet_code login_pkt = 1
packet_code users_pkt = 2
packet_code invite_pkt = 3
packet_code revoke_pkt = 4
packet_code accept_pkt = 5
packet_code decline_pkt = 6
packet_code move_pkt = 7
packet_code resign_pkt = 8
packet_code ack_pkt = 9
packet_code nack_pkt = 10
packet_code invited_pkt = 11
packet_code revoked_pkt = 12
packet_code accepted_pkt = 13
packet_code declined_pkt = 14
packet_code moved_pkt = 15
packet_code resigned_pkt = 16
packet_code ended_pkt = 17

pub record Header : Type 0 where
  pub type : ℕ
  pub id : ℕ
  pub role : ℕ
  pub size : ℕ
  pub timestamp_sec : ℕ
  pub timestamp_nsec : ℕ

-- The byte orders, on a little-endian machine.
unfoldable pub htons : ℕ → ℕ
htons x = (x % 256) * 256 + (x / 256) % 256

unfoldable pub ntohs : ℕ → ℕ
unfolding htons
ntohs x = htons x

unfoldable pub htonl : ℕ → ℕ
htonl x =
    (x % 256) * 16777216
    + ((x / 256) % 256) * 65536
    + ((x / 65536) % 256) * 256
    + (x / 16777216) % 256

unfoldable pub ntohl : ℕ → ℕ
unfolding htonl
ntohl x = htonl x

abbrev pub bytes16 : ℕ → List ℕ
bytes16 x = (x % 256) ∷ ((x / 256) % 256) ∷ []

abbrev pub bytes32 : ℕ → List ℕ
bytes32 x = (x % 256) ∷ ((x / 256) % 256) ∷ ((x / 65536) % 256) ∷ ((x / 16777216) % 256) ∷ []

-- `sizeof(JEUX_PACKET_HEADER)`
abbrev pub header_size : ℕ
header_size = 16

-- The struct in memory.
unfoldable pub header_bytes : Header → List ℕ
header_bytes h =
    h.type
    ∷ h.id
    ∷ h.role
    ∷ 0
    ∷ (bytes16 h.size ++ (0 ∷ 0 ∷ (bytes32 h.timestamp_sec ++ bytes32 h.timestamp_nsec)))

abbrev pub byte : List ℕ → ℕ → ℕ
byte bs i = get_or bs i 0

abbrev pub word16 : List ℕ → ℕ → ℕ
word16 bs i = byte bs i + 256 * byte bs (i + 1)

abbrev pub word32 : List ℕ → ℕ → ℕ
word32 bs i =
    byte bs i + 256 * byte bs (i + 1) + 65536 * byte bs (i + 2) + 16777216 * byte bs (i + 3)

-- The memory read as the struct again.
unfoldable pub header_of_bytes : List ℕ → Header
header_of_bytes bs = record {
  type = byte bs 0;
  id = byte bs 1;
  role = byte bs 2;
  size = word16 bs 4;
  timestamp_sec = word32 bs 8;
  timestamp_nsec = word32 bs 12;
}

abbrev pub is_some {ℓ} : {A : Type ℓ} → Option A → Bool
is_some none = false
is_some (some _) = true

-- The first test of `proto_send_packet`: a size without a payload, or a payload without a size.
unfoldable pub is_invalid_packet : Header → Option (List ℕ) → Bool
is_invalid_packet h payload =
    let n = ntohs h.size in (n == 0 && is_some payload) || (not (n == 0) && not (is_some payload))

-- The header with the time of sending in network order.
unfoldable pub stamp : (sec nsec : ℕ) → Header → Header
stamp sec nsec h = record h { timestamp_sec = htonl sec; timestamp_nsec = htonl nsec }

-- The bytes of the payload that are written: as many as the header says.
unfoldable pub payload_bytes : Header → Option (List ℕ) → List ℕ
payload_bytes h none = []
payload_bytes h (some p) = take (ntohs h.size) p

-- `Rio_readn` of csapp.c: the bytes it got, and those that are still to come.
abbrev pub Readn : Type 0
Readn = ℕ → List ℕ → List ℕ × List ℕ

-- A read into a buffer leaves the bytes behind the last one that it got.
unfoldable pub overlay : List ℕ → List ℕ → List ℕ
overlay got buffer = got ++ drop (length got) buffer

-- The conversions that `proto_recv_packet` makes in place.
unfoldable pub to_host : Header → Header
to_host h = record h {
  size = ntohs h.size;
  timestamp_sec = ntohl h.timestamp_sec;
  timestamp_nsec = ntohl h.timestamp_nsec;
}

pub record Received : Type 0 where
  pub header : Header
  pub payload : Option (List ℕ)
  pub rest : List ℕ

unfoldable pub recv_payload : Readn → Header → List ℕ → Option Received
recv_payload readn h input =
    let (got, rest) = readn h.size input in
    if h.size == 0
    then some (record { header = h; payload = none; rest = input })
    else if length got == 0
    then none
    else some (record { header = h; payload = some got; rest = rest })

-- `hdr` is what the caller's header held before; the allocation of the payload succeeds.
unfoldable pub proto_recv_packet : Readn → Header → List ℕ → Option Received
proto_recv_packet readn hdr input =
    let (got, rest) = readn header_size input in
    if length got == 0
    then none
    else recv_payload readn (to_host (header_of_bytes (overlay got (header_bytes hdr)))) rest
