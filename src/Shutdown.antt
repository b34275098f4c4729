-- ===== src/Shutdown.antt =====
-- The end of the server: `creg_shutdown_all` of src/client_registry.c, `terminate` of src/main.c,
-- and the end of a service thread in src/server.c.
pub mod Closing
pub mod Quiet
pub mod Listed
pub mod OneClient
pub mod Clients
pub mod Ending
use multi_threaded_tic_tac_t.Base.{ℕ, Bool, List, [], ◌∷◌}
use multi_threaded_tic_tac_t.Objects.{Ptr, null}
use multi_threaded_tic_tac_t.World.{Env, World, Outcome, done, M, pure, ◌>>=◌, ◌>>◌, get_registry}
use multi_threaded_tic_tac_t.Player.{player_unref}
use multi_threaded_tic_tac_t.PlayerRegistry.{preg_fini}
use multi_threaded_tic_tac_t.Client.{client_get_fd}
use multi_threaded_tic_tac_t.ClientRegistry.{creg_unregister, creg_wait_for_empty, creg_fini}
use multi_threaded_tic_tac_t.Session.{client_logout}

-- `shutdown(fd, SHUT_RD)`
abbrev pub shut_down : ℕ → M (Unit {0})
shut_down fd w = done tt (record w { shut = fd ∷ w.shut })

-- One step of the loop, and the loop over the nodes; a node is left before it is freed.
unfoldable pub shut_client : Env → Ptr → M (Unit {0})
shut_client env client = do
  fd ← client_get_fd client
  shut_down fd
  client_logout env client
  creg_unregister client
  pure tt

unfoldable pub shut_clients : Env → List Ptr → M (Unit {0})
shut_clients env [] = pure tt
shut_clients env (c ∷ cs) = do shut_client env c; shut_clients env cs

unfoldable pub creg_shutdown_all : Env → M (Unit {0})
creg_shutdown_all env = do cr ← get_registry; shut_clients env cr.head

-- The result says whether the client registry is gone; the exit of the process follows.
unfoldable pub terminate : Env → M Bool
terminate env = do
  creg_shutdown_all env
  creg_wait_for_empty
  gone ← creg_fini
  preg_fini
  pure gone

-- What a service thread does when its connection has ended. The thread's variable `player` is
-- NULL to the end: the `PLAYER *player` of the LOGIN case hides it.
unfoldable pub end_service : Env → Ptr → M (Unit {0})
end_service env client = do
  player_unref null
  client_logout env client
  creg_unregister client
  pure tt
