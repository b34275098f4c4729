-- ===== src/Session.antt =====
-- src/client.c, logging in and out, and the check for a user name of src/server.c.
pub mod Logout
pub mod Names
pub mod Login
use multi_threaded_tic_tac_t.Base.{
  ℕ, zero, suc, ◌+◌, ◌-◌, ◌*◌, ◌/◌, ◌%◌, ◌≡◌, refl, Bool, true, false, not, ◌&&◌, ◌||◌, Option,
  none, some, List, [], ◌∷◌, ◌++◌, arith, ltb, leb, ◌==◌, if◌then◌else◌, length,
}
use multi_threaded_tic_tac_t.Objects.{
  Ptr, null, Name, Score, win_score, draw_score, loss_score, Rating, initial, plus_first,
  plus_second, Player, InvitationState, inv_open_state, inv_accepted_state, inv_closed_state,
  Invitation, InvitationNode, Client, ClientRegistry, PlayerNode,
}
use multi_threaded_tic_tac_t.World.{
  WriteResult, written, broken_pipe, failed, Env, Mutex, player_lock, game_lock, inv_lock,
  client_lock, registry_lock, player_registry_lock, World, Outcome, done, crash, deadlock, M, pure,
  ◌>>=◌, ◌>>◌, update, lock, unlock, request, reach, load_player, load_game, load_inv, load_client,
  put_player, put_game, put_inv, put_client, new_address, get_registry, put_registry, get_players,
  put_players,
}
use multi_threaded_tic_tac_t.GameObject
use multi_threaded_tic_tac_t.Player.{player_ref, player_unref, player_get_name, player_post_result}
use multi_threaded_tic_tac_t.Client.{
  client_ref, client_unref, client_get_player, client_send_packet, is_sent, make_packet,
  client_send_ack, client_send_nack,
}
use multi_threaded_tic_tac_t.Invitation.{
  inv_create, inv_unref, inv_get_source, inv_get_target, inv_get_source_role, inv_get_target_role,
  inv_get_game, inv_accept, inv_close,
}
use multi_threaded_tic_tac_t.ClientList.{
  find_by_id, find_by_invitation, client_add_invitation, client_remove_invitation,
}
use multi_threaded_tic_tac_t.PlayerRegistry.{same_text}
use multi_threaded_tic_tac_t.ClientRegistry.{creg_all_players}
use multi_threaded_tic_tac_t.Requests.{client_revoke_invitation, client_decline_invitation}
use multi_threaded_tic_tac_t.Matches.{client_resign_game}

-- The loop over the list: each reference is given up before the name is compared. The name may be
-- NULL, which only a comparison notices.
unfoldable pub any_named : List Ptr → Option Name → Bool → M Bool
any_named [] name result = pure result
any_named (p ∷ ps) name result = do
  player_unref p
  n ← player_get_name p
  a ← reach n
  b ← reach name
  any_named ps name (if same_text a b then true else result)

-- A NULL list is read without a check.
unfoldable pub check_if_other_clients_logged_in_with_same_player : Env → Option Name → M Bool
check_if_other_clients_logged_in_with_same_player env name = do
  players ← creg_all_players env
  list ← reach players
  any_named list name false

unfoldable pub client_login : Env → Ptr → Ptr → M Bool
client_login env client player = if client == null then pure false else do
  lock (client_lock client)
  k ← load_client client
  taken ←
      (if k.logged_in then pure true else do
        name ← player_get_name player
        check_if_other_clients_logged_in_with_same_player env name)
  if taken then (do unlock (client_lock client); pure false) else do
    k ← load_client client
    put_client client (some (record k { logged_in = true; player = player }))
    player_ref player
    unlock (client_lock client)
    pure true

-- One invitation of a client that logs out.
unfoldable pub leave : Env → Ptr → InvitationNode → M Bool
leave env client node = do
  game ← inv_get_game node.invitation
  source ← inv_get_source node.invitation
  if not (game == null)
      then client_resign_game env client node.id
      else if source == client
      then client_revoke_invitation env client node.id
      else client_decline_invitation env client node.id

-- The loop of `client_logout`; what `leave` answers is not looked at.
unfoldable pub leave_all : Env → Ptr → List InvitationNode → M (Unit {0})
leave_all env client [] = pure tt
leave_all env client (n ∷ ns) = do leave env client n; leave_all env client ns

-- The client stays marked as logged in, and keeps its player.
unfoldable pub client_logout : Env → Ptr → M Bool
client_logout env client = do
  lock (client_lock client)
  k ← load_client client
  unlock (client_lock client)
  if not k.logged_in then pure false else do
    player_unref k.player
    k ← load_client client
    leave_all env client k.invitations
    pure true
