-- ===== src/Examples/Service.antt =====
-- The registries, the sessions and the requests of src/player_registry.c, src/client_registry.c,
-- src/client.c and src/server.c in a memory with two clients.
use multi_threaded_tic_tac_t.Base.{ℕ, ◌≡◌, refl, true, false, none, some, List, [], ◌∷◌, arith}
use multi_threaded_tic_tac_t.Objects.{null, Name}
use multi_threaded_tic_tac_t.World.{
  World, done, crash, deadlock, update, lock, unlock, load_client, load_player, request,
  registry_lock, holds, without, same_mutex,
}
use multi_threaded_tic_tac_t.Protocol.{Header}
use multi_threaded_tic_tac_t.Player.{player_unref, player_ref, player_get_name}
use multi_threaded_tic_tac_t.PlayerRegistry.{same_text, find_player, preg_register}
use multi_threaded_tic_tac_t.PlayerRegistry.Names.{Unique, preg_register-Unique}
use multi_threaded_tic_tac_t.Client.{
  client_create, client_get_fd, client_unref, client_get_player, client_ref,
}
use multi_threaded_tic_tac_t.Base.{◌⊎◌}
use multi_threaded_tic_tac_t.Objects.{Client}
use multi_threaded_tic_tac_t.ClientRegistry.{
  fd_in_list, insert_client, creg_init, creg_register, creg_unregister, creg_lookup, lookup_in,
  player_name_of, signal_empty, remove_client, is_listed, unlist,
}
use multi_threaded_tic_tac_t.ClientRegistry.Counting.{Counted, unregistered_blocks}
use multi_threaded_tic_tac_t.ClientRegistry.Runs.{
  Operation, register, unregister, run, started-Counted,
}
use multi_threaded_tic_tac_t.ClientRegistry.Listing.{Live, AllLive}
use multi_threaded_tic_tac_t.Session.{client_login}
use multi_threaded_tic_tac_t.Session.Names.{Taken}
use multi_threaded_tic_tac_t.Session.Login.{MayLogin, client_login-Taken}
use multi_threaded_tic_tac_t.Session.Logout.{Idle}
use multi_threaded_tic_tac_t.Server.{serve, handle_invite, send_users, c_string}
use multi_threaded_tic_tac_t.Server.Guards.{
  Connected, refuse, refusals, nacked, serve_without_login, handle_invite_bad_role,
}
use multi_threaded_tic_tac_t.Server.Users.{send_users_overflow}
use multi_threaded_tic_tac_t.Examples.Setting.{
  env, env-AllWritten, ann, bob, idle, lobby, two-one, one-null, two-null, nine-null,
}

-- "eve" is not registered.
abbrev eve : Name
eve = b'e' ∷ b'v' ∷ b'e' ∷ []

eve_unknown : find_player lobby.player_registry eve ≡ none
unfolding find_player same_text
eve_unknown = refl

-- The memory after "bob" is registered again.
abbrev with_bob : World
with_bob = record lobby { players = update lobby.players 2 (some (record bob { ref_count = 4 })) }

bob_registered : preg_register env bob.username lobby ≡ done 2 with_bob
unfolding preg_register find_player same_text player_ref load_player lock unlock holds without
    same_mutex
bob_registered = refl

lobby-Unique : Unique lobby.player_registry
unfolding find_player same_text
lobby-Unique = (refl, (refl, tt))

preg_register-Unique_example : Unique with_bob.player_registry
preg_register-Unique_example =
    preg_register-Unique env bob.username 2 lobby with_bob lobby-Unique bob_registered

-- A third connection, on the descriptor 6.
abbrev with_third : World
with_third = record lobby {
  clients =
      update lobby.clients 9 (
        some
          (record { fd = 6; ref_count = 1; logged_in = false; player = null; invitations = [] }));
  fresh = 10;
  requests = 1;
  client_registry = record {
    P_flag = false;
    head = 9 ∷ 2 ∷ 1 ∷ [];
    client_count = 3;
    semaphore = 0;
  };
}

created : (s : World) × (creg_init env lobby ≡ done true s)
unfolding creg_init request
created = (_, refl)

-- Two connections, one of which is on a descriptor twice and leaves.
abbrev operations : List Operation
operations = register 6 ∷ register 7 ∷ register 6 ∷ unregister 9 ∷ []

ran : (v : World) × (run env operations created.0 ≡ done tt v)
unfolding run creg_register fd_in_list client_get_fd load_client client_create request insert_client
    creg_unregister client_unref player_unref remove_client is_listed unlist signal_empty lock
    unlock holds without same_mutex created
ran = (_, refl)

started-Counted_example : Counted ran.0.client_registry
started-Counted_example = started-Counted env operations lobby created.0 ran.0 created.1 ran.1

-- The client 1 is not in the list.
abbrev stranger : World
stranger = record lobby {
  client_registry = record { P_flag = false; head = 2 ∷ []; client_count = 1; semaphore = 0 };
}

four_absent :
    fd_in_list (2 ∷ []) 4 (record stranger { held = registry_lock ∷ [] })
    ≡ done false (record stranger { held = registry_lock ∷ [] })
unfolding fd_in_list client_get_fd load_client
four_absent = refl

unregistered_blocks_example :
    (v : World) × (creg_unregister 1 stranger ≡ done false v) × (creg_register env 8 v ≡ deadlock)
unregistered_blocks_example =
    unregistered_blocks env 8 1 (idle 4 1) stranger refl one-null refl four_absent

ann-Idle : Idle lobby 1 (idle 4 1) ann 2
ann-Idle = record {
  client_ne = one-null;
  live = refl;
  logged_in = refl;
  player_ne = one-null;
  player_live = refl;
  no_invitations = refl;
  count = refl;
  free = refl;
}

abbrev header : ℕ → ℕ → Header
header type role = record {
  type = type;
  id = 0;
  role = role;
  size = 0;
  timestamp_sec = 0;
  timestamp_nsec = 0;
}

connected : Connected lobby 1 (idle 4 1)
unfolding holds
connected = record { client_ne = one-null; live = refl; free = refl }

-- USERS and MOVE, and a packet of an unknown type.
serve_without_login_example :
    serve env 1 false
      ((header 2 0, none) ∷ (header 20 0, none) ∷ (header 7 0, some (b'5' ∷ [])) ∷ [])
      lobby
    ≡ done false (
        refuse env
          (idle 4 1)
          (refusals
            ((header 2 0, none) ∷ (header 20 0, none) ∷ (header 7 0, some (b'5' ∷ [])) ∷ []))
          lobby)
serve_without_login_example =
    serve_without_login env env-AllWritten lobby 1 (idle 4 1) connected
      ((header 2 0, none) ∷ (header 20 0, none) ∷ (header 7 0, some (b'5' ∷ [])) ∷ [])
      (two-one, (cc, (cc, tt)))

-- The memory after bob's client was looked up.
abbrev found_bob : World
found_bob = record lobby {
  clients = update lobby.clients 2 (some (record (idle 5 2) { ref_count = 2 }));
}

bob_found : creg_lookup (some bob.username) lobby ≡ done 2 found_bob
unfolding creg_lookup lookup_in player_name_of same_text client_get_player player_get_name
    client_ref load_client load_player lock unlock holds without same_mutex
bob_found = refl

found-Connected : Connected found_bob 1 (idle 4 1)
unfolding holds
found-Connected = record { client_ne = one-null; live = refl; free = refl }

handle_invite_bad_role_example :
    (u : World) × (handle_invite env 1 true 3 (some bob.username) lobby ≡ done tt u)
    × (u ≡ nacked env (idle 4 1) found_bob)
    × (u.clients 2 ≡ some (record (idle 5 2) { ref_count = 2 }))
unfolding c_string
handle_invite_bad_role_example =
    handle_invite_bad_role env env-AllWritten lobby found_bob 1 (idle 4 1) 2 (idle 5 2)
      (some bob.username) 3 bob_found refl two-null two-one refl found-Connected refl

abbrev lines : List (List ℕ)
lines = (b'a' ∷ 9 ∷ b'1' ∷ 10 ∷ []) ∷ (b'b' ∷ 9 ∷ b'1' ∷ 10 ∷ []) ∷ []

abbrev many_lines : List (List ℕ)
many_lines =
    (b'c' ∷ 9 ∷ b'1' ∷ 10 ∷ []) ∷ (b'd' ∷ 9 ∷ b'1' ∷ 10 ∷ []) ∷ (b'e' ∷ 9 ∷ b'1' ∷ 10 ∷ []) ∷ lines

send_users_overflow_example : send_users env 1 many_lines lobby ≡ crash
send_users_overflow_example = send_users_overflow env 1 many_lines lobby (omega arith)

ann-Live : Live lobby.players 1
ann-Live = record { player = ann; player_ne = one-null; here = refl; counted = omega arith }

bob-Live : Live lobby.players 2
bob-Live = record { player = bob; player_ne = two-null; here = refl; counted = omega arith }

lobby-AllLive : AllLive lobby.players lobby.clients lobby.client_registry.head
lobby-AllLive =
    (two-null, (idle 5 2, refl, λ a b. bob-Live), (one-null, (idle 4 1, refl, λ a b. ann-Live), tt))

-- A third client that is not logged in tries to log in as bob, who is there.
abbrev third : Client
third = record { fd = 6; ref_count = 1; logged_in = false; player = null; invitations = [] }

third-AllLive : AllLive with_third.players with_third.clients with_third.client_registry.head
third-AllLive = (nine-null, (third, refl, λ a b. absurd (cc)), lobby-AllLive)

third-MayLogin : MayLogin with_third 9 third 2 bob
third-MayLogin = record {
  client_ne = nine-null;
  live = refl;
  logged_out = refl;
  player_ne = two-null;
  player_live = refl;
  all_live = third-AllLive;
  bounded = omega arith;
  free = refl;
}

client_login-Taken_example :
    ((client_login env 9 2 with_third ≡ done false (record with_third { requests = 2 }))
      × Taken with_third.players with_third.clients with_third.client_registry.head bob.username)
    ⊎ ((client_login env 9 2 with_third
          ≡ done true (record with_third {
            requests = 2;
            clients =
                update with_third.clients 9 (some (record third { logged_in = true; player = 2 }));
            players = update with_third.players 2 (some (record bob { ref_count = 4 }));
          }))
        × (Taken with_third.players with_third.clients with_third.client_registry.head bob.username
            → ⊥))
client_login-Taken_example = client_login-Taken env with_third 9 third 2 bob third-MayLogin refl
