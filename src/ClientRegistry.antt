-- ===== src/ClientRegistry.antt =====
-- src/client_registry.c: the list of the connected clients. The registry exists while the server
-- runs, so its pointer is not NULL.
pub mod Counting
pub mod Runs
pub mod Listing
use multi_threaded_tic_tac_t.Base.{
  ℕ, zero, suc, ◌+◌, ◌-◌, ◌*◌, ◌/◌, ◌%◌, ◌≡◌, refl, Bool, true, false, not, ◌&&◌, ◌||◌, Option,
  none, some, List, [], ◌∷◌, ◌++◌, arith, ltb, leb, ◌==◌, if◌then◌else◌, length,
}
use multi_threaded_tic_tac_t.Objects.{
  Ptr, null, Name, Score, win_score, draw_score, loss_score, Rating, initial, plus_first,
  plus_second, Player, InvitationState, inv_open_state, inv_accepted_state, inv_closed_state,
  Invitation, InvitationNode, Client, ClientRegistry, PlayerNode,
}
use multi_threaded_tic_tac_t.World.{
  WriteResult, written, broken_pipe, failed, Env, Mutex, player_lock, game_lock, inv_lock,
  client_lock, registry_lock, player_registry_lock, World, Outcome, done, crash, deadlock, M, pure,
  ◌>>=◌, ◌>>◌, update, lock, unlock, request, reach, load_player, load_game, load_inv, load_client,
  put_player, put_game, put_inv, put_client, new_address, get_registry, put_registry, get_players,
  put_players,
}
use multi_threaded_tic_tac_t.Player.{player_ref, player_get_name}
use multi_threaded_tic_tac_t.PlayerRegistry.{same_text}
use multi_threaded_tic_tac_t.Client.{
  client_create, client_ref, client_unref, client_get_player, client_get_fd,
}

abbrev pub max_clients : ℕ
max_clients = 64

-- The loop of `fd_already_used`; `true` is its result 0.
unfoldable pub fd_in_list : List Ptr → ℕ → M Bool
fd_in_list [] fd = pure false
fd_in_list (c ∷ cs) fd = do
  used ← client_get_fd c
  if used == fd then pure true else fd_in_list cs fd

unfoldable pub insert_client : ClientRegistry → Ptr → ClientRegistry
insert_client cr client = record cr { head = client ∷ cr.head; client_count = cr.client_count + 1 }

unfoldable pub is_listed : List Ptr → Ptr → Bool
is_listed [] client = false
is_listed (c ∷ cs) client = (c == client) || is_listed cs client

unfoldable pub unlist : List Ptr → Ptr → List Ptr
unlist [] client = []
unlist (c ∷ cs) client = if c == client then cs else c ∷ unlist cs client

-- A client that is not in the list changes nothing.
unfoldable pub remove_client : ClientRegistry → Ptr → ClientRegistry
unfolding is_listed unlist
remove_client cr client =
    if is_listed cr.head client
    then record cr { head = unlist cr.head client; client_count = cr.client_count - 1 }
    else cr

unfoldable pub creg_register : Env → ℕ → M Ptr
creg_register env fd = do
  lock registry_lock
  cr ← get_registry
  used ← fd_in_list cr.head fd
  if used || leb max_clients cr.client_count then (do unlock registry_lock; pure null) else do
    client ← client_create env fd
    if client == null
        then (do unlock registry_lock; pure null)
        else do put_registry (insert_client cr client); unlock registry_lock; pure client

-- `V` on the semaphore when the last client leaves and a thread waits for that.
unfoldable pub signal_empty : ClientRegistry → ClientRegistry
signal_empty cr =
    if (cr.client_count == 0) && cr.P_flag then record cr { semaphore = cr.semaphore + 1 } else cr

-- A client that is not registered is refused with the mutex left locked.
unfoldable pub creg_unregister : Ptr → M Bool
creg_unregister client = if client == null then pure false else do
  lock registry_lock
  fd ← client_get_fd client
  cr ← get_registry
  used ← fd_in_list cr.head fd
  if not used then pure false else do
    put_registry (remove_client cr client)
    client_unref client
    after ← get_registry
    put_registry (signal_empty after)
    unlock registry_lock
    pure true

-- `client_get_player(node->client)` with its name: NULL for a client that is not logged in.
unfoldable pub player_name_of : Ptr → M (Option Name)
player_name_of client = do player ← client_get_player client; player_get_name player

unfoldable pub lookup_in : List Ptr → Name → M Ptr
lookup_in [] user = pure null
lookup_in (c ∷ cs) user = do
  name ← player_name_of c
  elim name [
    | none ↦ lookup_in cs user
    | some n ↦ if same_text n user then client_ref c else lookup_in cs user
  ]

-- `none` is a NULL user name.
unfoldable pub creg_lookup : Option Name → M Ptr
creg_lookup none = pure null
creg_lookup (some user) = do
  lock registry_lock
  cr ← get_registry
  client ← lookup_in cr.head user
  unlock registry_lock
  pure client

-- The loop of `creg_all_players`, with the room that is left in the array.
unfoldable pub players_in : List Ptr → ℕ → M (List Ptr)
players_in [] room = pure []
players_in (c ∷ cs) zero = pure []
players_in (c ∷ cs) (suc room) = do
  player ← client_get_player c
  if player == null
      then players_in cs (suc room)
      else do player_ref player; rest ← players_in cs room; pure (player ∷ rest)

-- `none` is the result NULL.
unfoldable pub creg_all_players : Env → M (Option (List Ptr))
creg_all_players env = do
  lock registry_lock
  granted ← request env
  if not granted then (do unlock registry_lock; pure none) else do
    cr ← get_registry
    players ← players_in cr.head max_clients
    unlock registry_lock
    pure (some players)

-- The test for a failed allocation, `cr_ptr < 0`, never holds, so a NULL registry is written to;
-- the mutex and the semaphore are requests of their own. `false` is the result NULL.
unfoldable pub creg_init : Env → M Bool
creg_init env = do
  allocated ← request env
  if not allocated then (λ w. crash) else do
    mutex ← request env
    if not mutex then pure false else do
      semaphore ← request env
      if not semaphore then pure false else do
        put_registry (record { P_flag = false; head = []; client_count = 0; semaphore = 0 })
        pure true

-- The clients of the nodes are freed whatever their counts are; a freed one is a crash.
unfoldable pub free_clients : List Ptr → M (Unit {0})
free_clients [] = pure tt
free_clients (c ∷ cs) = do k ← load_client c; put_client c none; free_clients cs

-- The result says whether the registry is gone: with clients in it nothing happens.
unfoldable pub creg_fini : M Bool
creg_fini = do
  cr ← get_registry
  if not (cr.client_count == 0)
      then pure false
      else do free_clients cr.head; put_registry (record cr { head = [] }); pure true

-- The parts of `creg_wait_for_empty`, none of which takes the mutex: the flag, the test of the
-- count, and `P`, which is refused while the semaphore is 0.
unfoldable pub raise_flag : ClientRegistry → ClientRegistry
raise_flag cr = record cr { P_flag = true }

unfoldable pub check_empty : ClientRegistry → ClientRegistry
check_empty cr = if cr.client_count == 0 then record cr { semaphore = cr.semaphore + 1 } else cr

unfoldable pub pass : ClientRegistry → Option ClientRegistry
pass cr = if cr.semaphore == 0 then none else some (record cr { semaphore = cr.semaphore - 1 })

-- A thread that waits while no other runs waits for ever.
unfoldable pub creg_wait_for_empty : M (Unit {0})
creg_wait_for_empty = do
  cr ← get_registry
  elim (pass (check_empty (raise_flag cr))) [
    | none ↦ λ w. deadlock
    | some after ↦ put_registry after
  ]
