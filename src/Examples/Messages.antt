-- ===== src/Examples/Messages.antt =====
-- The theorems on src/protocol.c and on the lists of invitations of src/client.c at packets and
-- lists.
use multi_threaded_tic_tac_t.Base.{
  ℕ, ◌<◌, ◌≡◌, refl, true, false, some, List, [], ◌∷◌, ◌++◌, arith, take, drop,
}
use multi_threaded_tic_tac_t.Objects.{InvitationNode}
use multi_threaded_tic_tac_t.Protocol.{
  Header, htons, ntohs, is_invalid_packet, Readn, proto_recv_packet,
}
use multi_threaded_tic_tac_t.Protocol.Wire.{IsHeader, ReadsAll, arrived}
use multi_threaded_tic_tac_t.World.{World, done, written}
use multi_threaded_tic_tac_t.Client.{proto_send_packet}
use multi_threaded_tic_tac_t.Client.RoundTrip.{wire, recv-proto_send_packet}
use multi_threaded_tic_tac_t.Examples.Setting.{env, env-AllWritten, lobby}
use multi_threaded_tic_tac_t.ClientList.{
  id_exists, lowest_from, find_lowest_id_available, find_by_invitation,
}
use multi_threaded_tic_tac_t.ClientList.Ids.{find_lowest_id_available_lem, Distinct}

-- A MOVE packet with the payload "5".
abbrev move_header : Header
move_header = record {
  type = 7;
  id = 2;
  role = 0;
  size = 256;
  timestamp_sec = 0;
  timestamp_nsec = 0;
}

abbrev cleared : Header
cleared = record { type = 0; id = 0; role = 0; size = 0; timestamp_sec = 0; timestamp_nsec = 0 }

abbrev readn : Readn
readn n s = (take n s, drop n s)

readn-ReadsAll : ReadsAll readn
readn-ReadsAll n s h = refl

move_header-IsHeader : IsHeader move_header
move_header-IsHeader = record {
  type_fits = omega arith;
  id_fits = omega arith;
  role_fits = omega arith;
  size_fits = omega arith;
  sec_fits = omega arith;
  nsec_fits = omega arith;
}

one_byte : move_header.size ≡ htons 1
unfolding htons
one_byte = refl

move_valid : is_invalid_packet move_header (some (b'5' ∷ [])) ≡ false
unfolding is_invalid_packet ntohs
move_valid = refl

-- A fresh connection: no byte is sent yet.
recv-proto_send_packet_example :
    (v : World) × (proto_send_packet env 4 move_header (some (b'5' ∷ [])) lobby ≡ done written v)
    × (proto_recv_packet readn cleared (wire v.sent ++ (7 ∷ 0 ∷ []))
        ≡ some (record {
          header = arrived 1700000000 5 move_header (some (b'5' ∷ []));
          payload = some (b'5' ∷ []);
          rest = 7 ∷ 0 ∷ [];
        }))
recv-proto_send_packet_example =
    recv-proto_send_packet env env-AllWritten readn readn-ReadsAll lobby 4 move_header cleared
      (7 ∷ 0 ∷ []) move_header-IsHeader refl (some (b'5' ∷ [])) one_byte (omega arith) move_valid

abbrev node : ℕ → ℕ → InvitationNode
node inv id = record { invitation = inv; id = id }

-- Three invitations, of which one has left a gap.
abbrev nodes : List InvitationNode
nodes = node 11 3 ∷ node 12 1 ∷ node 13 0 ∷ []

nodes-Distinct : Distinct nodes
unfolding id_exists
nodes-Distinct = (refl, (refl, (refl, tt)))

two_free : find_lowest_id_available nodes ≡ 2
unfolding find_lowest_id_available id_exists lowest_from
two_free = refl

find_lowest_id_available_example :
    (id_exists nodes (find_lowest_id_available nodes) ≡ false)
    × ((j : ℕ) → j < find_lowest_id_available nodes → id_exists nodes j ≡ true)
find_lowest_id_available_example = find_lowest_id_available_lem nodes

twelve_known : find_by_invitation nodes 12 ≡ some 1
unfolding find_by_invitation
twelve_known = refl
