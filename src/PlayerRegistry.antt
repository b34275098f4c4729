-- ===== src/PlayerRegistry.antt =====
-- src/player_registry.c: the map from user names to players.
pub mod Names
use multi_threaded_tic_tac_t.Base.{
  ℕ, zero, suc, ◌+◌, ◌-◌, ◌*◌, ◌/◌, ◌%◌, ◌≡◌, refl, Bool, true, false, not, ◌&&◌, ◌||◌, Option,
  none, some, List, [], ◌∷◌, ◌++◌, arith, ltb, leb, ◌==◌, if◌then◌else◌, length,
}
use multi_threaded_tic_tac_t.Objects.{
  Ptr, null, Name, Score, win_score, draw_score, loss_score, Rating, initial, plus_first,
  plus_second, Player, InvitationState, inv_open_state, inv_accepted_state, inv_closed_state,
  Invitation, InvitationNode, Client, ClientRegistry, PlayerNode,
}
use multi_threaded_tic_tac_t.World.{
  WriteResult, written, broken_pipe, failed, Env, Mutex, player_lock, game_lock, inv_lock,
  client_lock, registry_lock, player_registry_lock, World, Outcome, done, crash, deadlock, M, pure,
  ◌>>=◌, ◌>>◌, update, lock, unlock, request, reach, load_player, load_game, load_inv, load_client,
  put_player, put_game, put_inv, put_client, new_address, get_registry, put_registry, get_players,
  put_players,
}
use multi_threaded_tic_tac_t.Player.{player_create, player_ref, player_unref, player_get_name}

-- `strcmp(s, t) == 0`
unfoldable pub same_text : List ℕ → List ℕ → Bool
same_text [] [] = true
same_text (a ∷ s) (b ∷ t) = (a == b) && same_text s t
same_text _ _ = false

-- The loop of `preg_register` over the nodes.
unfoldable pub find_player : List PlayerNode → Name → Option Ptr
find_player [] name = none
find_player (n ∷ ns) name = if same_text n.name name then some n.player else find_player ns name

-- The allocation of a node, which has no mutex.
unfoldable pub add_player : Env → Name → M Ptr
add_player env name = do
  player ← player_create env name
  if player == null then pure null else do
    granted ← request env
    if not granted then (do player_unref player; pure null) else do
      nodes ← get_players
      let node : PlayerNode = record { name = name; player = player }
      put_players (node ∷ nodes)
      player_ref player
      pure player

unfoldable pub preg_register : Env → Name → M Ptr
preg_register env name = do
  lock player_registry_lock
  nodes ← get_players
  elim (find_player nodes name) [
    | some player ↦ do player_ref player; unlock player_registry_lock; pure player
    | none ↦ do player ← add_player env name; unlock player_registry_lock; pure player
  ]

abbrev pub max_players : ℕ
max_players = 64

-- The node and its copy of the name are one request; without them nothing happens.
unfoldable pub player_registry_insert : Env → Name → Ptr → M (Unit {0})
player_registry_insert env name player = do
  granted ← request env
  if not granted then pure tt else do
    nodes ← get_players
    let node : PlayerNode = record { name = name; player = player }
    put_players (node ∷ nodes)

unfoldable pub unlist_player : List PlayerNode → Name → List PlayerNode
unlist_player [] name = []
unlist_player (n ∷ ns) name = if same_text n.name name then ns else n ∷ unlist_player ns name

unfoldable pub player_registry_remove : Name → M (Unit {0})
player_registry_remove name = do
  nodes ← get_players
  elim (find_player nodes name) [
    | none ↦ pure tt
    | some player ↦ do put_players (unlist_player nodes name); player_unref player
  ]

unfoldable pub player_registry_free_nodes : List PlayerNode → M (Unit {0})
player_registry_free_nodes [] = pure tt
player_registry_free_nodes (n ∷ ns) = do player_unref n.player; player_registry_free_nodes ns

-- The registry is gone with its nodes.
unfoldable pub player_registry_free : M (Unit {0})
player_registry_free = do nodes ← get_players; player_registry_free_nodes nodes; put_players []

-- The array of `max_players` places, from the place `i` on; a shorter one is read beyond its end.
unfoldable pub exists_from : ℕ → ℕ → List Ptr → Name → M (Option ℕ)
exists_from zero i players name = pure none
exists_from (suc left) i [] name = λ w. crash
exists_from (suc left) i (p ∷ ps) name = if p == null then exists_from left (suc i) ps name else do
  n ← player_get_name p
  a ← reach n
  if same_text a name then pure (some i) else exists_from left (suc i) ps name

unfoldable pub player_exists : List Ptr → Name → M (Option ℕ)
player_exists players name = exists_from max_players 0 players name

-- The allocation and the mutex are one request; `false` is the result NULL.
unfoldable pub preg_init : Env → M Bool
preg_init env = do
  granted ← request env
  if not granted then pure false else do put_players []; pure true

unfoldable pub preg_fini : M (Unit {0})
preg_fini = do
  lock player_registry_lock
  nodes ← get_players
  player_registry_free_nodes nodes
  unlock player_registry_lock
  put_players []
