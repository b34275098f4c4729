-- ===== src/Invitation/Counts.antt =====
-- The reference counts of src/invitation.c, src/client.c and src/game.c: giving up a reference to
-- an object that others hold, and the last one.
use multi_threaded_tic_tac_t.Base.{◌-◌, ◌<◌, ◌≡◌, refl, ◌≢◌, false, none, some, [], ◌∷◌, arith}
use multi_threaded_tic_tac_t.Game.{Game}
use multi_threaded_tic_tac_t.Objects.{Ptr, null, Invitation, Client, Player}
use multi_threaded_tic_tac_t.World.{
  World, done, holds, without, same_mutex, lock, unlock, client_lock, game_lock, inv_lock,
  player_lock, update, load_client, load_inv, load_game, load_player,
}
use multi_threaded_tic_tac_t.GameObject.{game_unref}
use multi_threaded_tic_tac_t.Client.{client_unref}
use multi_threaded_tic_tac_t.Player.{player_unref}
use multi_threaded_tic_tac_t.Invitation.{inv_unref}

module _ (w : World) (p : Ptr) where
  pub client_unref_shared :
      (k : Client)
      → p ≢ null
      → w.clients p ≡ some k
      → 1 < k.ref_count
      → holds (client_lock p) w.held ≡ false
      → client_unref p w
        ≡ done tt (record w {
          clients = update w.clients p (some (record k { ref_count = k.ref_count - 1 }));
        })
  unfolding client_unref load_client lock unlock without same_mutex
  client_unref_shared k n e c f = ground arith

  pub player_unref_shared :
      (k : Player)
      → p ≢ null
      → w.players p ≡ some k
      → 1 < k.ref_count
      → holds (player_lock p) w.held ≡ false
      → player_unref p w
        ≡ done tt (record w {
          players = update w.players p (some (record k { ref_count = k.ref_count - 1 }));
        })
  unfolding player_unref load_player lock unlock without same_mutex
  player_unref_shared k n e c f = ground arith

  pub game_unref_last :
      (g : Game)
      → p ≢ null
      → w.games p ≡ some g
      → g.ref_count ≡ 1
      → holds (game_lock p) w.held ≡ false
      → game_unref p w ≡ done tt (record w { games = update w.games p none })
  unfolding game_unref load_game lock unlock without same_mutex
  game_unref_last g n e c f = ground arith

  pub inv_unref_shared :
      (i : Invitation)
      → p ≢ null
      → w.invs p ≡ some i
      → 1 < i.ref_count
      → holds (inv_lock p) w.held ≡ false
      → inv_unref p w
        ≡ done tt
            (record w { invs = update w.invs p (some (record i { ref_count = i.ref_count - 1 })) })
  unfolding inv_unref load_inv lock unlock without same_mutex
  inv_unref_shared i n e c f = ground arith

-- What the last reference to an invitation gives up: its two clients, which others hold too.
pub record Owned (w : World) (i : Invitation) (source target : Client) : Type 0 where
  pub source_ne : i.sender ≢ null
  pub target_ne : i.recipient ≢ null
  pub apart : i.sender ≢ i.recipient
  pub source_live : w.clients i.sender ≡ some source
  pub target_live : w.clients i.recipient ≡ some target
  pub source_count : 1 < source.ref_count
  pub target_count : 1 < target.ref_count
  pub free : w.held ≡ []

module _ (w : World) (p : Ptr) (i : Invitation) (source target : Client)
    (o : Owned w i source target) (n : p ≢ null) (live : w.invs p ≡ some i)
    (last : i.ref_count ≡ 1) where
  abbrev locked : World
  locked = record w { held = inv_lock p ∷ [] }

  abbrev first_out : World
  first_out = record locked {
    clients = update w.clients i.sender (some (record source { ref_count = source.ref_count - 1 }));
  }

  abbrev both_out : World
  both_out = record locked {
    clients =
        update
          (update w.clients i.sender (some (record source { ref_count = source.ref_count - 1 })))
          i.recipient (some (record target { ref_count = target.ref_count - 1 }));
  }

  first_unref : client_unref i.sender locked ≡ done tt first_out
  unfolding holds same_mutex
  first_unref =
      client_unref_shared locked i.sender source o.source_ne o.source_live o.source_count refl

  second_unref : client_unref i.recipient first_out ≡ done tt both_out
  unfolding holds same_mutex
  second_unref =
      client_unref_shared first_out i.recipient target o.target_ne
        (let a = o.apart in let l = o.target_live in ground arith) o.target_count refl

  -- The last reference frees the invitation and its game, and takes one from each client.
  pub inv_unref_last :
      (g : Game)
      → i.game ≢ null
      → w.games i.game ≡ some g
      → g.ref_count ≡ 1
      → inv_unref p w
        ≡ done tt (record w {
          clients = both_out.clients;
          games = update w.games i.game none;
          invs = update w.invs p none;
        })
  unfolding inv_unref load_inv lock unlock holds without same_mutex
  inv_unref_last g gn gl gc =
      ground (arith, first_unref, second_unref, game_unref_last both_out i.game g)

  -- Without a game, the invitation alone is freed.
  pub inv_unref_last_open :
      i.game ≡ null
      → inv_unref p w
        ≡ done tt (record w { clients = both_out.clients; invs = update w.invs p none })
  unfolding inv_unref load_inv lock unlock holds without same_mutex game_unref
  inv_unref_last_open gn = ground (arith, first_unref, second_unref)
