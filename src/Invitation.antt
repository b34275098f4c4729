-- ===== src/Invitation.antt =====
-- src/invitation.c: invitation objects and their states.
pub mod Counts
pub mod States
use multi_threaded_tic_tac_t.Base.{
  ℕ, zero, suc, ◌+◌, ◌-◌, ◌*◌, ◌/◌, ◌%◌, ◌≡◌, refl, Bool, true, false, not, ◌&&◌, ◌||◌, Option,
  none, some, List, [], ◌∷◌, ◌++◌, arith, ltb, leb, ◌==◌, if◌then◌else◌, length,
}
use multi_threaded_tic_tac_t.Objects.{
  Ptr, null, Name, Score, win_score, draw_score, loss_score, Rating, initial, plus_first,
  plus_second, Player, InvitationState, inv_open_state, inv_accepted_state, inv_closed_state,
  Invitation, InvitationNode, Client, ClientRegistry, PlayerNode,
}
use multi_threaded_tic_tac_t.World.{
  WriteResult, written, broken_pipe, failed, Env, Mutex, player_lock, game_lock, inv_lock,
  client_lock, registry_lock, player_registry_lock, World, Outcome, done, crash, deadlock, M, pure,
  ◌>>=◌, ◌>>◌, update, lock, unlock, request, reach, load_player, load_game, load_inv, load_client,
  put_player, put_game, put_inv, put_client, new_address, get_registry, put_registry, get_players,
  put_players,
}
use multi_threaded_tic_tac_t.Game.{
  GameRole, null_role, first_player_role, second_player_role, Game, GameMove, is_first, game_create,
  game_apply_move, game_resign, game_is_over, game_get_winner, game_parse_move, game_unparse_state,
}
use multi_threaded_tic_tac_t.GameObject
use multi_threaded_tic_tac_t.Client.{client_ref, client_unref}

unfoldable pub inv_create : Env → Ptr → Ptr → GameRole → GameRole → M Ptr
inv_create env source target source_role target_role = do
  granted ← request env
  if granted
      then (do
        inv ← new_address
        put_inv inv (
            some (record {
              ref_count = 1;
              sender = source;
              recipient = target;
              source_role = source_role;
              target_role = target_role;
              game = null;
              state = inv_open_state;
            }))
        client_ref source
        client_ref target
        pure inv)
      else pure null

unfoldable pub inv_ref : Ptr → M Ptr
inv_ref inv = if inv == null then pure null else do
  lock (inv_lock inv)
  i ← load_inv inv
  put_inv inv (some (record i { ref_count = i.ref_count + 1 }))
  unlock (inv_lock inv)
  pure inv

-- The last reference gives up both clients and the game; each of them accepts NULL.
unfoldable pub inv_unref : Ptr → M (Unit {0})
inv_unref inv = if inv == null then pure tt else do
  lock (inv_lock inv)
  i ← load_inv inv
  if i.ref_count == 1
      then (do
        client_unref i.sender
        client_unref i.recipient
        GameObject.game_unref i.game
        unlock (inv_lock inv)
        put_inv inv none)
      else do put_inv inv (some (record i { ref_count = i.ref_count - 1 })); unlock (inv_lock inv)

unfoldable pub inv_get_source : Ptr → M Ptr
inv_get_source inv = if inv == null then pure null else do i ← load_inv inv; pure i.sender

unfoldable pub inv_get_target : Ptr → M Ptr
inv_get_target inv = if inv == null then pure null else do i ← load_inv inv; pure i.recipient

unfoldable pub inv_get_source_role : Ptr → M GameRole
inv_get_source_role inv =
    if inv == null then pure null_role else do i ← load_inv inv; pure i.source_role

unfoldable pub inv_get_target_role : Ptr → M GameRole
inv_get_target_role inv =
    if inv == null then pure null_role else do i ← load_inv inv; pure i.target_role

unfoldable pub inv_get_game : Ptr → M Ptr
inv_get_game inv = if inv == null then pure null else do i ← load_inv inv; pure i.game

abbrev pub is_open : InvitationState → Bool
is_open inv_open_state = true
is_open _ = false

abbrev pub is_accepted : InvitationState → Bool
is_accepted inv_accepted_state = true
is_accepted _ = false

abbrev pub is_null_role : GameRole → Bool
is_null_role null_role = true
is_null_role _ = false

-- The state is ACCEPTED also where the game could not be created.
unfoldable pub inv_accept : Env → Ptr → M Bool
inv_accept env inv = if inv == null then pure false else do
  lock (inv_lock inv)
  i ← load_inv inv
  if not (is_open i.state) then (do unlock (inv_lock inv); pure false) else do
    game ← GameObject.game_create env
    put_inv inv (some (record i { state = inv_accepted_state; game = game }))
    unlock (inv_lock inv)
    pure (not (game == null))

-- The resignation that `inv_close` submits for an accepted invitation with a game.
unfoldable pub resign_in_progress : Invitation → GameRole → M (Unit {0})
resign_in_progress i role =
    if is_accepted i.state && not (i.game == null)
    then (do GameObject.game_resign i.game role; pure tt)
    else pure tt

unfoldable pub inv_close : Ptr → GameRole → M Bool
unfolding resign_in_progress
inv_close inv role = if inv == null then pure false else do
  i ← load_inv inv
  if is_null_role role && not (i.game == null) then pure false else do
    lock (inv_lock inv)
    if not (is_open i.state) && not (is_accepted i.state)
        then (do unlock (inv_lock inv); pure false)
        else do
          resign_in_progress i role
          put_inv inv (some (record i { state = inv_closed_state }))
          unlock (inv_lock inv)
          pure true
