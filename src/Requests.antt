-- ===== src/Requests.antt =====
-- src/client.c, the requests on invitations: make, revoke, decline and accept.
pub mod Making
pub mod Withdrawing
pub mod Outcomes
pub mod Accepting
pub mod NotAccepting
use multi_threaded_tic_tac_t.Base.{
  ℕ, zero, suc, ◌+◌, ◌-◌, ◌*◌, ◌/◌, ◌%◌, ◌≡◌, refl, Bool, true, false, not, ◌&&◌, ◌||◌, Option,
  none, some, List, [], ◌∷◌, ◌++◌, arith, ltb, leb, ◌==◌, if◌then◌else◌, length,
}
use multi_threaded_tic_tac_t.Objects.{
  Ptr, null, Name, Score, win_score, draw_score, loss_score, Rating, initial, plus_first,
  plus_second, Player, InvitationState, inv_open_state, inv_accepted_state, inv_closed_state,
  Invitation, InvitationNode, Client, ClientRegistry, PlayerNode,
}
use multi_threaded_tic_tac_t.World.{
  WriteResult, written, broken_pipe, failed, Env, Mutex, player_lock, game_lock, inv_lock,
  client_lock, registry_lock, player_registry_lock, World, Outcome, done, crash, deadlock, M, pure,
  ◌>>=◌, ◌>>◌, update, lock, unlock, request, reach, load_player, load_game, load_inv, load_client,
  put_player, put_game, put_inv, put_client, new_address, get_registry, put_registry, get_players,
  put_players,
}
use multi_threaded_tic_tac_t.Game.{
  GameRole, null_role, first_player_role, second_player_role, Game, GameMove, is_first,
  game_is_over, game_parse_move, game_unparse_state,
}
use multi_threaded_tic_tac_t.Protocol.{PacketType, packet_code, Header, htons}
use multi_threaded_tic_tac_t.Protocol
use multi_threaded_tic_tac_t.GameObject
use multi_threaded_tic_tac_t.Player.{player_ref, player_unref, player_get_name, player_post_result}
use multi_threaded_tic_tac_t.Client.{
  client_ref, client_unref, client_get_player, client_send_packet, is_sent, make_packet,
  client_send_ack, client_send_nack,
}
use multi_threaded_tic_tac_t.Invitation.{
  inv_create, inv_unref, inv_get_source, inv_get_target, inv_get_source_role, inv_get_target_role,
  inv_get_game, inv_accept, inv_close,
}
use multi_threaded_tic_tac_t.ClientList.{
  find_by_id, find_by_invitation, client_add_invitation, client_remove_invitation,
}

-- `role` of the header holds the enumerator.
unfoldable pub role_code : GameRole → ℕ
role_code null_role = 0
role_code first_player_role = 1
role_code second_player_role = 2

-- A header without a payload, with an invitation's number in the 8 bits of `id`.
unfoldable pub id_packet : PacketType → ℕ → Header
id_packet type id = record (make_packet type 0) { id = id % 256 }

-- The header of the INVITED packet.
unfoldable pub invited_packet : ℕ → GameRole → Name → Header
invited_packet id role name = record (make_packet Protocol.invited_pkt (length name)) {
  id = id % 256;
  role = role_code role;
}

-- `strlen` of a NULL name is a crash.
unfoldable pub send_invited : Env → Ptr → Ptr → ℕ → GameRole → M WriteResult
send_invited env source target target_id target_role = do
  player ← client_get_player source
  name ← player_get_name player
  name ← reach name
  client_send_packet env target (invited_packet target_id target_role name) (some name)

unfoldable pub client_make_invitation : Env → Ptr → Ptr → GameRole → GameRole → M (Option ℕ)
client_make_invitation env source target source_role target_role = do
  inv ← inv_create env source target source_role target_role
  if inv == null then pure none else do
    client_id ← client_add_invitation env source inv
    elim client_id [
      | none ↦ do inv_unref inv; pure none
      | some id ↦ do
        target_id ← client_add_invitation env target inv
        elim target_id [
          | none ↦ do inv_unref inv; pure none
          | some tid ↦ do
            lock (client_lock source)
            r ← send_invited env source target tid target_role
            if not (is_sent r)
                then (do unlock (client_lock source); pure none)
                else do inv_unref inv; unlock (client_lock source); pure (some id)
        ]
    ]

-- What `client_revoke_invitation` does once the invitation may be revoked.
unfoldable pub withdraw : Env → Ptr → Ptr → M Bool
withdraw env client inv = do
  removed ← client_remove_invitation client inv
  elim removed [
    | none ↦ pure false
    | some _ ↦ do
      target ← inv_get_target inv
      target_id ← client_remove_invitation target inv
      elim target_id [
        | none ↦ pure false
        | some id ↦ do
          r ← client_send_packet env target (id_packet Protocol.revoked_pkt id) none
          pure (is_sent r)
      ]
  ]

-- The checks of `client_revoke_invitation` under the client's mutex.
unfoldable pub may_revoke : Ptr → Ptr → M Bool
may_revoke client inv = do
  game ← inv_get_game inv
  if not (game == null) then pure false else do source ← inv_get_source inv; pure (source == client)

unfoldable pub client_revoke_invitation : Env → Ptr → ℕ → M Bool
client_revoke_invitation env client id = do
  lock (client_lock client)
  k ← load_client client
  elim (find_by_id k.invitations id) [
    | none ↦ do unlock (client_lock client); pure false
    | some inv ↦ do
      allowed ← may_revoke client inv
      unlock (client_lock client)
      if not allowed then pure false else withdraw env client inv
  ]

-- What `client_decline_invitation` does once the invitation may be declined.
unfoldable pub turn_down : Env → Ptr → Ptr → M Bool
turn_down env client inv = do
  removed ← client_remove_invitation client inv
  elim removed [
    | none ↦ pure false
    | some _ ↦ do
      source ← inv_get_source inv
      source_id ← client_remove_invitation source inv
      elim source_id [
        | none ↦ pure false
        | some id ↦ do
          lock (client_lock client)
          r ← client_send_packet env source (id_packet Protocol.declined_pkt id) none
          unlock (client_lock client)
          pure (is_sent r)
      ]
  ]

unfoldable pub may_decline : Ptr → Ptr → M Bool
may_decline client inv = do
  game ← inv_get_game inv
  if not (game == null) then pure false else do target ← inv_get_target inv; pure (target == client)

unfoldable pub client_decline_invitation : Env → Ptr → ℕ → M Bool
client_decline_invitation env client id = do
  lock (client_lock client)
  k ← load_client client
  elim (find_by_id k.invitations id) [
    | none ↦ do unlock (client_lock client); pure false
    | some inv ↦ do
      allowed ← may_decline client inv
      unlock (client_lock client)
      if not allowed then pure false else turn_down env client inv
  ]

-- The tests before `inv_accept`.
unfoldable pub may_accept : Ptr → Ptr → M Bool
may_accept client inv = do
  target ← inv_get_target inv
  if not (target == client) then pure false else do game ← inv_get_game inv; pure (game == null)

-- The picture of the invitation's game.
unfoldable pub game_text : Ptr → M (List ℕ)
game_text inv = do game ← inv_get_game inv; g ← load_game game; pure (game_unparse_state g)

-- STEP 3 of `client_accept_invitation`: the ACCEPTED packet, with the picture if the source moves
-- first, where `strp = NULL` sets the local pointer and leaves `*strp`, the value `str`, as it was;
-- else the picture goes back to the caller in `*strp`.
unfoldable pub send_accepted : Env → Ptr → Ptr → ℕ → Option (List ℕ) → M (Bool × Option (List ℕ))
send_accepted env source inv source_id str = do
  role ← inv_get_source_role inv
  state_str ← game_text inv
  if is_first role
      then (do
        let pkt = record (id_packet Protocol.accepted_pkt source_id) {
          size = htons (length state_str % 65536);
        }
        r ← client_send_packet env source pkt (some state_str)
        pure (is_sent r, str))
      else do
        r ← client_send_packet env source (id_packet Protocol.accepted_pkt source_id) none
        pure (is_sent r, some state_str)

-- `str` is what the caller keeps in `*strp`; the result comes with what `*strp` holds behind it.
unfoldable pub client_accept_invitation :
    Env → Ptr → ℕ → Option (List ℕ) → M (Bool × Option (List ℕ))
client_accept_invitation env client id str = do
  lock (client_lock client)
  k ← load_client client
  elim (find_by_id k.invitations id) [
    | none ↦ do unlock (client_lock client); pure (false, str)
    | some inv ↦ do
      source ← inv_get_source inv
      allowed ← may_accept client inv
      accepted ← (if allowed then inv_accept env inv else pure false)
      if not accepted then (do unlock (client_lock client); pure (false, str)) else do
        s ← load_client source
        elim (find_by_invitation s.invitations inv) [
          | none ↦ do unlock (client_lock client); pure (false, str)
          | some source_id ↦ do
            result ← send_accepted env source inv source_id str
            unlock (client_lock client)
            pure result
        ]
  ]
