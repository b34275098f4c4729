-- ===== src/Lobby.antt =====
-- The server while nobody plays: connections come, log in and go in any order, with the calls of
-- src/server.c, src/client_registry.c and src/player_registry.c that this needs.
pub mod Connecting
pub mod Leaving
pub mod LoggingIn
pub mod Requests
pub mod Service
pub mod Runs
use multi_threaded_tic_tac_t.Base.{ℕ, ◌≤◌, ◌<◌, ◌≡◌, ◌≢◌, Bool, true, some, Option, List, none}
use multi_threaded_tic_tac_t.Objects.{Ptr, null, Name, Player, Client}
use multi_threaded_tic_tac_t.World.{Env, World, done}
use multi_threaded_tic_tac_t.PlayerRegistry.{find_player}
use multi_threaded_tic_tac_t.ClientRegistry.{max_clients, is_listed, creg_register}
use multi_threaded_tic_tac_t.Shutdown.{end_service}
use multi_threaded_tic_tac_t.Shutdown.Ending.{Quiescent}
use multi_threaded_tic_tac_t.Server.{handle_login}

-- What holds between the requests of the connections.
pub record Lobby (w : World) : Type 0 where
  pub quiescent : Quiescent w
  pub bounded : w.client_registry.client_count ≤ max_clients
  pub fresh_ne : w.fresh ≢ null
  pub clients_below : (c : Ptr) (k : Client) → w.clients c ≡ some k → c < w.fresh
  pub players_below : (a : Ptr) (p : Player) → w.players a ≡ some p → a < w.fresh
  pub known :
      (name : Name) (a : Ptr)
      → find_player w.player_registry name ≡ some a
      → (p : Player) × (w.players a ≡ some p) × (p.username ≡ name)

-- Every request for an object is granted.
abbrev pub AllGranted : Env → Type 0
AllGranted env = (n : ℕ) → env.allocate n ≡ true
