-- ===== src/Matches/Removing.antt =====
-- `remove_both`: an invitation leaves the lists of its two clients, src/client.c, and is freed with
-- the last reference, src/invitation.c.
use multi_threaded_tic_tac_t.Base.{ℕ, ◌-◌, ◌<◌, ◌≡◌, refl, ◌≢◌, true, none, some, [], arith}
use multi_threaded_tic_tac_t.Game.{Game}
use multi_threaded_tic_tac_t.Objects.{Ptr, null, Invitation, Client}
use multi_threaded_tic_tac_t.World.{World, done, holds, update}
use multi_threaded_tic_tac_t.Invitation.Counts.{Owned, inv_unref_shared, inv_unref_last}
use multi_threaded_tic_tac_t.ClientList.{find_by_invitation, client_remove_invitation}
use multi_threaded_tic_tac_t.ClientList.Update.{leaves, remove_listed}
use multi_threaded_tic_tac_t.Matches.{remove_both}

-- The objects of an invitation: its clients, its game, and the clients' ids for it.
pub record Objects : Type 0 where
  pub source : Client
  pub target : Client
  pub game : Game
  pub source_id : ℕ
  pub target_id : ℕ

-- An invitation with a game that only the lists of its two clients hold.
pub record Pair (w : World) (inv : Ptr) (i : Invitation) (d : Objects) : Type 0 where
  pub inv_ne : inv ≢ null
  pub source_ne : i.sender ≢ null
  pub target_ne : i.recipient ≢ null
  pub game_ne : i.game ≢ null
  pub apart : i.sender ≢ i.recipient
  pub inv_live : w.invs inv ≡ some i
  pub inv_count : i.ref_count ≡ 2
  pub source_live : w.clients i.sender ≡ some d.source
  pub target_live : w.clients i.recipient ≡ some d.target
  pub game_live : w.games i.game ≡ some d.game
  pub game_count : d.game.ref_count ≡ 1
  pub source_count : 1 < d.source.ref_count
  pub target_count : 1 < d.target.ref_count
  pub source_listed : find_by_invitation d.source.invitations inv ≡ some d.source_id
  pub target_listed : find_by_invitation d.target.invitations inv ≡ some d.target_id
  pub free : w.held ≡ []

module _ (w : World) (inv : Ptr) (i : Invitation) (d : Objects) where
  -- The memory after the source's node is gone.
  abbrev pub after_source : World
  after_source = record w {
    clients = update w.clients i.sender (some (leaves d.source inv));
    invs = update w.invs inv (some (record i { ref_count = 1 }));
  }

  -- The memory after both nodes and the invitation with its game are gone.
  abbrev pub after_both : World
  after_both = record w {
    clients =
        update
          (update
            (update (update w.clients i.sender (some (leaves d.source inv))) i.recipient
              (some (leaves d.target inv)))
            i.sender (some (record (leaves d.source inv) { ref_count = d.source.ref_count - 1 })))
          i.recipient (some (record (leaves d.target inv) { ref_count = d.target.ref_count - 1 }));
    invs = update (update w.invs inv (some (record i { ref_count = 1 }))) inv none;
    games = update w.games i.game none;
  }

  abbrev unlisted : World
  unlisted = record after_source {
    clients = update after_source.clients i.recipient (some (leaves d.target inv));
  }

module _ (w : World) (inv : Ptr) (i : Invitation) (d : Objects) (p : Pair w inv i d) where
  remove_source :
      client_remove_invitation i.sender inv w ≡ done (some d.source_id) (after_source w inv i d)
  unfolding holds
  remove_source =
      let w1 : World = record w {
        clients = update w.clients i.sender (some (leaves d.source inv));
      } in
      rw
        (
          remove_listed w i.sender inv d.source d.source_id p.source_ne p.inv_ne p.source_live
              p.source_listed p.free,
          inv_unref_shared w1 inv i p.inv_ne p.inv_live (omega (arith, p.inv_count)) (rw p.free),
        )
        (ground (arith, p.inv_count))

  unlisted-Owned :
      Owned
        (unlisted w inv i d)
        (record i { ref_count = 1 })
        (leaves d.source inv)
        (leaves d.target inv)
  unlisted-Owned = record {
    source_ne = p.source_ne;
    target_ne = p.target_ne;
    apart = p.apart;
    source_live = ground (arith, p.apart);
    target_live = ground arith;
    source_count = p.source_count;
    target_count = p.target_count;
    free = p.free;
  }

  target_there : (after_source w inv i d).clients i.recipient ≡ some d.target
  target_there = ground (arith, p.apart)

  remove_target :
      client_remove_invitation i.recipient inv (after_source w inv i d)
      ≡ done (some d.target_id) (after_both w inv i d)
  remove_target = rw (
    remove_listed (after_source w inv i d) i.recipient inv d.target d.target_id p.target_ne p.inv_ne
        target_there p.target_listed p.free,
    inv_unref_last (unlisted w inv i d) inv (record i { ref_count = 1 }) (leaves d.source inv)
        (leaves d.target inv) unlisted-Owned p.inv_ne (ground arith) refl d.game p.game_ne
        p.game_live p.game_count,
  )

  pub remove_both_lem : remove_both i.sender i.recipient inv w ≡ done true (after_both w inv i d)
  unfolding remove_both
  remove_both_lem = ground (arith, remove_source, remove_target)
