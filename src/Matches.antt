-- ===== src/Matches.antt =====
-- src/client.c, the requests on games: resign and make a move.
pub mod Moving
pub mod Removing
pub mod Ending
pub mod Final
pub mod Results
pub mod Resigning
pub mod Table
pub mod Whole
pub mod Finished
use multi_threaded_tic_tac_t.Base.{
  ℕ, zero, suc, ◌+◌, ◌-◌, ◌*◌, ◌/◌, ◌%◌, ◌≡◌, refl, Bool, true, false, not, ◌&&◌, ◌||◌, Option,
  none, some, List, [], ◌∷◌, ◌++◌, arith, ltb, leb, ◌==◌, if◌then◌else◌, length,
}
use multi_threaded_tic_tac_t.Objects.{
  Ptr, null, Name, Score, win_score, draw_score, loss_score, Rating, initial, plus_first,
  plus_second, Player, InvitationState, inv_open_state, inv_accepted_state, inv_closed_state,
  Invitation, InvitationNode, Client, ClientRegistry, PlayerNode,
}
use multi_threaded_tic_tac_t.World.{
  WriteResult, written, broken_pipe, failed, Env, Mutex, player_lock, game_lock, inv_lock,
  client_lock, registry_lock, player_registry_lock, World, Outcome, done, crash, deadlock, M, pure,
  ◌>>=◌, ◌>>◌, update, lock, unlock, request, reach, load_player, load_game, load_inv, load_client,
  put_player, put_game, put_inv, put_client, new_address, get_registry, put_registry, get_players,
  put_players,
}
use multi_threaded_tic_tac_t.Game.{
  GameRole, null_role, first_player_role, second_player_role, Game, GameMove, is_first,
  game_is_over, game_parse_move, game_unparse_state,
}
use multi_threaded_tic_tac_t.Protocol.{PacketType, packet_code, Header, htons}
use multi_threaded_tic_tac_t.Protocol
use multi_threaded_tic_tac_t.GameObject
use multi_threaded_tic_tac_t.Player.{player_ref, player_unref, player_get_name, player_post_result}
use multi_threaded_tic_tac_t.Client.{
  client_ref, client_unref, client_get_player, client_send_packet, is_sent, make_packet,
  client_send_ack, client_send_nack,
}
use multi_threaded_tic_tac_t.Invitation.{
  inv_create, inv_unref, inv_get_source, inv_get_target, inv_get_source_role, inv_get_target_role,
  inv_get_game, inv_accept, inv_close,
}
use multi_threaded_tic_tac_t.ClientList.{
  find_by_id, find_by_invitation, client_add_invitation, client_remove_invitation,
}
use multi_threaded_tic_tac_t.Requests.{role_code, id_packet}

-- An ENDED packet.
unfoldable pub ended_packet : ℕ → GameRole → Header
ended_packet id winner = record (id_packet Protocol.ended_pkt id) { role = role_code winner }

-- The role that a client plays in an invitation.
unfoldable pub role_in : Invitation → Ptr → GameRole
role_in i client = if client == i.sender then i.source_role else i.target_role

abbrev pub opponent_in : Invitation → Ptr → Ptr
opponent_in i client = if client == i.sender then i.recipient else i.sender

-- The invitation is removed from both lists, the source's first.
unfoldable pub remove_both : Ptr → Ptr → Ptr → M Bool
remove_both source target inv = do
  a ← client_remove_invitation source inv
  elim a [
    | none ↦ pure false
    | some _ ↦ do
      b ← client_remove_invitation target inv
      elim b [ none ↦ pure false | some _ ↦ pure true ]
  ]

-- The result is posted for the players of two clients.
unfoldable pub post_result : Ptr → Ptr → ℕ → M (Unit {0})
post_result client1 client2 result = do
  player1 ← client_get_player client1
  player2 ← client_get_player client2
  player_post_result player1 player2 result

-- The RESIGNED and ENDED packets; a broken pipe to the client that resigned is no error.
unfoldable pub send_resigned : Env → Ptr → Ptr → ℕ → ℕ → GameRole → M Bool
send_resigned env client opponent opponent_id id winner = do
  a ← client_send_packet env opponent (id_packet Protocol.resigned_pkt opponent_id) none
  if not (is_sent a) then pure false else do
    b ← client_send_packet env opponent (ended_packet opponent_id winner) none
    if not (is_sent b) then pure false else do
      c ← client_send_packet env client (ended_packet id winner) none
      elim c [ failed ↦ pure false | _ ↦ pure true ]

-- What follows once the invitation is closed.
unfoldable pub finish_resigned : Env → Ptr → Ptr → Invitation → ℕ → ℕ → M Bool
finish_resigned env client inv i opponent_id id = do
  winner ← GameObject.game_get_winner i.game
  notified ← send_resigned env client (opponent_in i client) opponent_id id winner
  if not notified then pure false else do
    removed ← remove_both i.sender i.recipient inv
    if not removed then pure false else do
      lock (client_lock client)
      post_result i.sender i.recipient (if client == i.sender then 2 else 1)
      unlock (client_lock client)
      pure true

-- No game, or a client that is neither the source nor the target.
unfoldable pub may_not_resign : Invitation → Ptr → Bool
may_not_resign i client =
    (i.game == null) || (not (i.sender == client) && not (i.recipient == client))

unfoldable pub client_resign_game : Env → Ptr → ℕ → M Bool
client_resign_game env client id = do
  lock (client_lock client)
  k ← load_client client
  elim (find_by_id k.invitations id) [
    | none ↦ do unlock (client_lock client); pure false
    | some inv ↦ do
      i ← load_inv inv
      closed ← (if may_not_resign i client then pure false else inv_close inv (role_in i client))
      if not closed then (do unlock (client_lock client); pure false) else do
        o ← load_client (opponent_in i client)
        elim (find_by_invitation o.invitations inv) [
          | none ↦ do unlock (client_lock client); pure false
          | some opponent_id ↦ do
            unlock (client_lock client)
            finish_resigned env client inv i opponent_id id
        ]
  ]

-- `int result = winner == NULL_ROLE ? 0.5 : …`: the double 0.5 becomes the int 0.
unfoldable pub result_code : GameRole → ℕ
result_code null_role = 0
result_code first_player_role = 1
result_code second_player_role = 2

-- The move is parsed and applied to the game; `true` if it was legal.
unfoldable pub try_move : Invitation → Ptr → List ℕ → M Bool
try_move i client move = do
  g ← load_game i.game
  elim (game_parse_move g (role_in i client) move) [
    | none ↦ pure false
    | some m ↦ GameObject.game_apply_move i.game m
  ]

-- What a move that ends the game does, behind the ENDED packet to the opponent.
unfoldable pub finish_move : Env → Ptr → Ptr → Invitation → ℕ → GameRole → M Bool
finish_move env client inv i id winner = do
  unlock (client_lock client)
  c ← client_send_packet env client (ended_packet id winner) none
  if not (is_sent c) then pure false else do
    removed ← remove_both i.sender i.recipient inv
    if not removed then pure false else do
      lock (client_lock client)
      post_result (if client == i.sender then i.sender else i.recipient) (opponent_in i client)
          (result_code winner)
      unlock (client_lock client)
      pure true

unfoldable pub end_move : Env → Ptr → Ptr → Invitation → ℕ → ℕ → M Bool
end_move env client inv i opponent_id id = do
  g ← load_game i.game
  if not (game_is_over g) then (do unlock (client_lock client); pure true) else do
    winner ← GameObject.game_get_winner i.game
    b ← client_send_packet env (opponent_in i client) (ended_packet opponent_id winner) none
    if not (is_sent b)
        then (do unlock (client_lock client); pure false)
        else finish_move env client inv i id winner

-- The MOVED packet and what follows it.
unfoldable pub announce_move : Env → Ptr → Ptr → Invitation → ℕ → ℕ → M Bool
announce_move env client inv i opponent_id id = do
  g ← load_game i.game
  let state_str = game_unparse_state g
  let pkt = record (make_packet Protocol.moved_pkt (length state_str)) { id = opponent_id % 256 }
  a ← client_send_packet env (opponent_in i client) pkt (some state_str)
  if not (is_sent a)
      then (do unlock (client_lock client); pure false)
      else end_move env client inv i opponent_id id

unfoldable pub client_make_move : Env → Ptr → ℕ → List ℕ → M Bool
client_make_move env client id move = do
  lock (client_lock client)
  k ← load_client client
  elim (find_by_id k.invitations id) [
    | none ↦ do unlock (client_lock client); pure false
    | some inv ↦ do
      i ← load_inv inv
      moved ← (if i.game == null then pure false else try_move i client move)
      if not moved then (do unlock (client_lock client); pure false) else do
        o ← load_client (opponent_in i client)
        elim (find_by_invitation o.invitations inv) [
          | none ↦ do unlock (client_lock client); pure false
          | some opponent_id ↦ announce_move env client inv i opponent_id id
        ]
  ]
