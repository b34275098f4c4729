-- ===== src/Server.antt =====
-- src/server.c: the service of one connection, a handler for each request, and the loop over the
-- packets that arrive.
pub mod Guards
pub mod Users
pub mod Playing
pub mod Arriving
use multi_threaded_tic_tac_t.Base.{
  ℕ, zero, suc, ◌+◌, ◌-◌, ◌*◌, ◌/◌, ◌%◌, ◌≡◌, refl, Bool, true, false, not, ◌&&◌, ◌||◌, Option,
  none, some, List, [], ◌∷◌, ◌++◌, arith, ltb, leb, ◌==◌, if◌then◌else◌, length,
}
use multi_threaded_tic_tac_t.Objects.{
  Ptr, null, Name, Score, win_score, draw_score, loss_score, Rating, initial, plus_first,
  plus_second, Player, InvitationState, inv_open_state, inv_accepted_state, inv_closed_state,
  Invitation, InvitationNode, Client, ClientRegistry, PlayerNode,
}
use multi_threaded_tic_tac_t.World.{
  WriteResult, written, broken_pipe, failed, Env, Mutex, player_lock, game_lock, inv_lock,
  client_lock, registry_lock, player_registry_lock, World, Outcome, done, crash, deadlock, M, pure,
  ◌>>=◌, ◌>>◌, update, lock, unlock, request, reach, load_player, load_game, load_inv, load_client,
  put_player, put_game, put_inv, put_client, new_address, get_registry, put_registry, get_players,
  put_players,
}
use multi_threaded_tic_tac_t.Game.{GameRole, first_player_role, second_player_role}
use multi_threaded_tic_tac_t.Protocol.{
  PacketType, packet_code, Header, htons, Readn, Received, proto_recv_packet,
}
use multi_threaded_tic_tac_t.Protocol
use multi_threaded_tic_tac_t.Player.{player_unref, player_get_name}
use multi_threaded_tic_tac_t.PlayerRegistry.{preg_register}
use multi_threaded_tic_tac_t.Client.{
  client_unref, client_send_packet, client_send_ack, client_send_nack,
}
use multi_threaded_tic_tac_t.ClientRegistry.{
  creg_register, creg_unregister, creg_lookup, creg_all_players,
}
use multi_threaded_tic_tac_t.Requests.{
  client_make_invitation, client_revoke_invitation, client_decline_invitation,
  client_accept_invitation,
}
use multi_threaded_tic_tac_t.Matches.{client_make_move, client_resign_game}
use multi_threaded_tic_tac_t.Session.{any_named, client_login}
use multi_threaded_tic_tac_t.Shutdown.{end_service}

-- `construct_packet` stores the size as it is given; the other fields are cleared.
unfoldable pub construct_packet : PacketType → ℕ → Header
construct_packet type size = record {
  type = packet_code type;
  id = 0;
  role = 0;
  size = size;
  timestamp_sec = 0;
  timestamp_nsec = 0;
}

-- The characters before the first NUL.
unfoldable pub c_string : List ℕ → List ℕ
c_string [] = []
c_string (c ∷ cs) = if c == 0 then [] else c ∷ c_string cs

-- The copy of a payload as a string; no payload is the empty string.
unfoldable pub copy_payload : Option (List ℕ) → List ℕ
unfolding c_string
copy_payload none = []
copy_payload (some p) = c_string p

abbrev pub as_string : Option (List ℕ) → Option (List ℕ)
as_string none = none
as_string (some p) = some (c_string p)

unfoldable pub check_if_other_clients_logged_in_with_same_name : Env → Name → M Bool
check_if_other_clients_logged_in_with_same_name env name = do
  players ← creg_all_players env
  list ← reach players
  any_named list (some name) false

-- The thread's own flag `logged_in` behind the request.
unfoldable pub reply : Env → Ptr → Bool → M (Unit {0})
reply env client ok = do
  sent ← (if ok then client_send_ack env client none 0 else client_send_nack env client)
  pure tt

unfoldable pub handle_login : Env → Ptr → Bool → Option (List ℕ) → M Bool
handle_login env client logged_in payload =
    if logged_in then (do reply env client false; pure logged_in) else do
      let name = copy_payload payload
      taken ← check_if_other_clients_logged_in_with_same_name env name
      if taken then (do reply env client false; pure false) else do
        player ← preg_register env name
        ok ← client_login env client player
        reply env client ok
        pure ok

-- "%s\t%d\n"
abbrev pub user_line : Env → Player → List ℕ
user_line env p = p.username ++ (9 ∷ (env.rating_text p.rating ++ (10 ∷ [])))

-- The loop of the USERS request: each reference is given up before the player is read.
unfoldable pub user_lines : Env → List Ptr → M (List (List ℕ))
user_lines env [] = pure []
user_lines env (player ∷ rest) = do
  player_unref player
  p ← load_player player
  lines ← user_lines env rest
  pure (user_line env p ∷ lines)

unfoldable pub join : List (List ℕ) → List ℕ
join [] = []
join (l ∷ ls) = l ++ join ls

-- `total_size`: a line is counted with the NUL behind it.
unfoldable pub total_size : List (List ℕ) → ℕ
total_size [] = 0
total_size (l ∷ ls) = length l + 1 + total_size ls

-- The end of the text is written at `total_size`, in a buffer of `total_size - i + 5` bytes for
-- `i` lines.
unfoldable pub send_users : Env → Ptr → List (List ℕ) → M (Unit {0})
send_users env client lines =
    let size = total_size lines in
    if ltb size (size - length lines + 5)
    then (do sent ← client_send_ack env client (some (join lines)) (size - length lines); pure tt)
    else λ w. crash

unfoldable pub handle_users : Env → Ptr → Bool → M (Unit {0})
handle_users env client logged_in = if not logged_in then reply env client false else do
  players ← creg_all_players env
  list ← reach players
  lines ← user_lines env list
  send_users env client lines

-- The roles of the source and the target for the role in the header: 1 invites the target as the
-- first player, 2 as the second.
abbrev pub invited_roles : ℕ → Option (GameRole × GameRole)
invited_roles (suc zero) = some (second_player_role, first_player_role)
invited_roles (suc (suc zero)) = some (first_player_role, second_player_role)
invited_roles _ = none

-- The ACK with the id of the new invitation.
unfoldable pub send_invite_ack : Env → Ptr → ℕ → M (Unit {0})
send_invite_ack env client id = do
  let pkt = record (construct_packet Protocol.ack_pkt 0) { id = id % 256 }
  sent ← client_send_packet env client pkt none
  pure tt

unfoldable pub invite : Env → Ptr → Ptr → GameRole × GameRole → M (Unit {0})
unfolding send_invite_ack
invite env client target (source_role, target_role) = do
  id ← client_make_invitation env client target source_role target_role
  elim id [
    | none ↦ reply env client false
    | some i ↦ do client_unref target; send_invite_ack env client i
  ]

unfoldable pub handle_invite : Env → Ptr → Bool → ℕ → Option (List ℕ) → M (Unit {0})
unfolding invite
handle_invite env client logged_in role payload =
    if not logged_in then reply env client false else do
      target ← creg_lookup (as_string payload)
      if (target == null) || (target == client)
          then (do client_unref target; reply env client false)
          else elim (invited_roles role) [
            | none ↦ reply env client false
            | some roles ↦ invite env client target roles
          ]

-- The reply to a request that answers success or failure.
unfoldable pub answer : Env → Ptr → Bool → M Bool → M (Unit {0})
answer env client logged_in request =
    if not logged_in then reply env client false else do ok ← request; reply env client ok

unfoldable pub handle_accept : Env → Ptr → Bool → ℕ → M (Unit {0})
handle_accept env client logged_in id = if not logged_in then reply env client false else do
  (ok, str) ← client_accept_invitation env client id none
  if not ok then reply env client false else do
    let size : ℕ = elim str [ none ↦ 0 | some s ↦ htons (length s % 65536) ]
    let pkt = record (construct_packet Protocol.ack_pkt 0) { id = id % 256; size = size }
    sent ← client_send_packet env client pkt str
    pure tt

-- The `switch` on the type of a packet; the result is the flag `logged_in` behind it.
unfoldable pub handle : Env → Ptr → Bool → Header → Option (List ℕ) → M Bool
handle env client logged_in hdr payload =
    if hdr.type == 1 then handle_login env client logged_in payload else (do
      if hdr.type == 2
          then handle_users env client logged_in
          else if hdr.type == 3
          then handle_invite env client logged_in hdr.role payload
          else if hdr.type == 4
          then answer env client logged_in (client_revoke_invitation env client hdr.id)
          else if hdr.type == 5
          then handle_accept env client logged_in hdr.id
          else if hdr.type == 6
          then answer env client logged_in (client_decline_invitation env client hdr.id)
          else if hdr.type == 7
          then answer env client logged_in
              (client_make_move env client hdr.id (copy_payload payload))
          else if hdr.type == 8
          then answer env client logged_in (client_resign_game env client hdr.id)
          else pure tt
      pure logged_in)

-- A packet that arrived.
abbrev pub Packet : Type 0
Packet = Header × Option (List ℕ)

-- The packets that `proto_recv_packet` reads until it fails; the header's buffer is used again.
unfoldable pub arriving : Readn → ℕ → Header → List ℕ → List Packet
arriving readn zero hdr input = []
arriving readn (suc fuel) hdr input = elim (proto_recv_packet readn hdr input) [
  | none ↦ []
  | some r ↦ (r.header, r.payload) ∷ arriving readn fuel r.header r.rest
]

unfoldable pub serve : Env → Ptr → Bool → List Packet → M Bool
serve env client logged_in [] = pure logged_in
serve env client logged_in ((hdr, payload) ∷ packets) = do
  now ← handle env client logged_in hdr payload
  serve env client now packets

unfoldable pub jeux_client_service : Env → ℕ → List Packet → M (Unit {0})
jeux_client_service env fd packets = do
  client ← creg_register env fd
  if client == null
      then pure tt
      else do logged_in ← serve env client false packets; end_service env client
