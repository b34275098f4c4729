-- ===== src/Session/Login.antt =====
-- `client_login` of src/client.c: one client for each user name.
use multi_threaded_tic_tac_t.Base.{
  ◌+◌, ◌≤◌, ◌≡◌, refl, ap, ◌∙◌, ◌≢◌, ◌⊎◌, inl, inr, true, false, some, [], ◌∷◌, arith, length,
  Bool-cases,
}
use multi_threaded_tic_tac_t.Objects.{Ptr, null, Player, Client}
use multi_threaded_tic_tac_t.World.{
  Env, World, done, holds, without, same_mutex, lock, unlock, client_lock, update, load_client,
  load_player,
}
use multi_threaded_tic_tac_t.Player.{player_ref, player_get_name}
use multi_threaded_tic_tac_t.ClientRegistry.{max_clients}
use multi_threaded_tic_tac_t.ClientRegistry.Listing.{AllLive}
use multi_threaded_tic_tac_t.Session.{
  client_login, check_if_other_clients_logged_in_with_same_player,
}
use multi_threaded_tic_tac_t.Session.Names.{Taken, check-Taken}

-- A client that is not logged in and a player; a registry of clients and players that are there.
pub record MayLogin (w : World) (c : Ptr) (k : Client) (q : Ptr) (p : Player) : Type 0 where
  pub client_ne : c ≢ null
  pub live : w.clients c ≡ some k
  pub logged_out : k.logged_in ≡ false
  pub player_ne : q ≢ null
  pub player_live : w.players q ≡ some p
  pub all_live : AllLive w.players w.clients w.client_registry.head
  pub bounded : length w.client_registry.head ≤ max_clients
  pub free : w.held ≡ []

module _ (env : Env) (w : World) (c : Ptr) (k : Client) (q : Ptr) (p : Player)
    (h : MayLogin w c k q p) where
  abbrev taken_world : World
  taken_world = record w { held = client_lock c ∷ [] }

  -- The memory after the check alone, and after the login.
  abbrev pub checked : World
  checked = record w { requests = w.requests + 1 }

  abbrev pub logged : World
  logged = record checked {
    clients = update w.clients c (some (record k { logged_in = true; player = q }));
    players = update w.players q (some (record p { ref_count = p.ref_count + 1 }));
  }

  refuses :
      check_if_other_clients_logged_in_with_same_player env (some p.username) taken_world
        ≡ done true (record taken_world { requests = w.requests + 1 })
      → client_login env c q w ≡ done false checked
  unfolding client_login player_get_name load_client load_player lock unlock holds without
      same_mutex
  refuses e =
      ground (arith, e, h.client_ne, h.live, h.logged_out, h.player_ne, h.player_live, h.free)

  admits :
      check_if_other_clients_logged_in_with_same_player env (some p.username) taken_world
        ≡ done false (record taken_world { requests = w.requests + 1 })
      → client_login env c q w ≡ done true logged
  unfolding client_login player_get_name player_ref load_client load_player lock unlock holds
      without same_mutex
  admits e =
      ground (arith, e, h.client_ne, h.live, h.logged_out, h.player_ne, h.player_live, h.free)

  -- No mutex is locked, and the registered clients and their players are there (`MayLogin`). Where
  -- the list of players can be allocated, a client that is not logged in logs in exactly if no
  -- registered client is logged in under the name of its player. It is then marked and holds a
  -- reference to the player; otherwise nothing changes but the count of the requests for memory. No
  -- mutex stays locked.
  pub client_login-Taken :
      env.allocate w.requests ≡ true
      → ((client_login env c q w ≡ done false checked)
          × Taken w.players w.clients w.client_registry.head p.username)
        ⊎ ((client_login env c q w ≡ done true logged)
            × (Taken w.players w.clients w.client_registry.head p.username → ⊥))
  unfolding holds same_mutex
  client_login-Taken granted =
      let (b, ran, says) =
        check-Taken env taken_world p.username refl (λ r. refl) granted h.bounded h.all_live in
      elim (Bool-cases b) [
        | inl yes_taken ↦ inl (
          refuses
              (ran ∙ ap (λ t. done t (record taken_world { requests = w.requests + 1 })) yes_taken),
          says.0 yes_taken,
        )
        | inr fresh_name ↦ inr (
          admits (
              ran ∙ ap (λ t. done t (record taken_world { requests = w.requests + 1 })) fresh_name),
          λ t. let s : b ≡ true = says.1 t in absurd (cc),
        )
      ]
