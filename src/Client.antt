-- ===== src/Client.antt =====
-- src/client.c, the first part: client objects, their reference counts, and sending packets; with
-- `proto_send_packet` of src/protocol.c over the shared memory.
pub mod Sending
pub mod RoundTrip
use multi_threaded_tic_tac_t.Base.{
  ℕ, zero, suc, ◌+◌, ◌-◌, ◌*◌, ◌/◌, ◌%◌, ◌≡◌, refl, Bool, true, false, not, ◌&&◌, ◌||◌, Option,
  none, some, List, [], ◌∷◌, ◌++◌, arith, ltb, leb, ◌==◌, if◌then◌else◌, length,
}
use multi_threaded_tic_tac_t.Objects.{
  Ptr, null, Name, Score, win_score, draw_score, loss_score, Rating, initial, plus_first,
  plus_second, Player, InvitationState, inv_open_state, inv_accepted_state, inv_closed_state,
  Invitation, InvitationNode, Client, ClientRegistry, PlayerNode,
}
use multi_threaded_tic_tac_t.World.{
  WriteResult, written, broken_pipe, failed, Env, Mutex, player_lock, game_lock, inv_lock,
  client_lock, registry_lock, player_registry_lock, World, Outcome, done, crash, deadlock, M, pure,
  ◌>>=◌, ◌>>◌, update, lock, unlock, request, reach, load_player, load_game, load_inv, load_client,
  put_player, put_game, put_inv, put_client, new_address, get_registry, put_registry, get_players,
  put_players,
}
use multi_threaded_tic_tac_t.Game.{
  GameRole, null_role, first_player_role, second_player_role, Game, GameMove, is_first, game_create,
  game_apply_move, game_resign, game_is_over, game_get_winner, game_parse_move, game_unparse_state,
}
use multi_threaded_tic_tac_t.Protocol.{
  PacketType, packet_code, Header, htons, ntohs, header_bytes, is_invalid_packet, stamp,
  payload_bytes,
}
use multi_threaded_tic_tac_t.Protocol
use multi_threaded_tic_tac_t.Player.{player_unref}

unfoldable pub client_create : Env → ℕ → M Ptr
client_create env fd = do
  granted ← request env
  if granted
      then (do
        c ← new_address
        put_client c (
            some (record {
              fd = fd;
              ref_count = 1;
              logged_in = false;
              player = null;
              invitations = [];
            }))
        pure c)
      else pure null

unfoldable pub client_ref : Ptr → M Ptr
client_ref client = if client == null then pure null else do
  lock (client_lock client)
  k ← load_client client
  put_client client (some (record k { ref_count = k.ref_count + 1 }))
  unlock (client_lock client)
  pure client

-- The last reference gives up the player too.
unfoldable pub client_unref : Ptr → M (Unit {0})
client_unref client = if client == null then pure tt else do
  lock (client_lock client)
  k ← load_client client
  if k.ref_count == 1
      then (do player_unref k.player; unlock (client_lock client); put_client client none)
      else do
        put_client client (some (record k { ref_count = k.ref_count - 1 }))
        unlock (client_lock client)

unfoldable pub client_get_player : Ptr → M Ptr
client_get_player client =
    if client == null
    then pure null
    else do k ← load_client client; pure (if k.logged_in then k.player else null)

unfoldable pub client_get_fd : Ptr → M ℕ
client_get_fd client = do k ← load_client client; pure k.fd

-- `rio_writen` of csapp.c: all the bytes, or none that count.
unfoldable pub rio_writen : Env → ℕ → List ℕ → M WriteResult
rio_writen env fd bytes w =
    let r = env.write w.writes in
    done r (record w {
      writes = w.writes + 1;
      sent = elim r [ written ↦ (fd, bytes) ∷ w.sent | _ ↦ w.sent ];
    })

-- `clock_gettime`, in the 32 bits of the header's fields.
unfoldable pub clock_gettime : Env → M (ℕ × ℕ)
clock_gettime env w =
    done ((env.clock w.writes).0 % 4294967296, (env.clock w.writes).1 % 4294967296) w

unfoldable pub write_payload : Env → ℕ → Header → Option (List ℕ) → WriteResult → M WriteResult
write_payload env fd hdr payload written =
    if ntohs hdr.size == 0 then pure written else rio_writen env fd (payload_bytes hdr payload)
write_payload env fd hdr payload r = pure r

-- `broken_pipe` and `failed` are the result -1, with `errno` EPIPE and another one.
unfoldable pub proto_send_packet : Env → ℕ → Header → Option (List ℕ) → M WriteResult
unfolding write_payload
proto_send_packet env fd hdr payload = if is_invalid_packet hdr payload then pure failed else do
  (sec, nsec) ← clock_gettime env
  r ← rio_writen env fd (header_bytes (stamp sec nsec hdr))
  write_payload env fd hdr payload r

unfoldable pub client_send_packet : Env → Ptr → Header → Option (List ℕ) → M WriteResult
client_send_packet env client pkt payload = if client == null then pure failed else do
  lock (client_lock client)
  fd ← client_get_fd client
  r ← proto_send_packet env fd pkt payload
  unlock (client_lock client)
  pure r

abbrev pub is_sent : WriteResult → Bool
is_sent written = true
is_sent _ = false

-- The header is allocated without a failure; its other fields are cleared.
unfoldable pub make_packet : PacketType → ℕ → Header
make_packet type size = record {
  type = packet_code type;
  id = 0;
  role = 0;
  size = htons (size % 65536);
  timestamp_sec = 0;
  timestamp_nsec = 0;
}

unfoldable pub client_send_ack : Env → Ptr → Option (List ℕ) → ℕ → M Bool
client_send_ack env client payload datalen = do
  r ← client_send_packet env client (make_packet Protocol.ack_pkt datalen) payload
  pure (is_sent r)

unfoldable pub client_send_nack : Env → Ptr → M Bool
client_send_nack env client = do
  r ← client_send_packet env client (make_packet Protocol.nack_pkt 0) none
  pure (is_sent r)
