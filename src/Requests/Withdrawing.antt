-- ===== src/Requests/Withdrawing.antt =====
-- `client_revoke_invitation` and `client_decline_invitation` of src/client.c.
use multi_threaded_tic_tac_t.Base.{ℕ, ◌-◌, ◌<◌, ◌≡◌, refl, ◌≢◌, false, none, some, [], arith}
use multi_threaded_tic_tac_t.Objects.{Ptr, null, Invitation, Client}
use multi_threaded_tic_tac_t.World.{Env, World, done, holds, inv_lock, update}
use multi_threaded_tic_tac_t.Invitation.Counts.{Owned, inv_unref_shared, inv_unref_last_open}
use multi_threaded_tic_tac_t.ClientList.{find_by_invitation, client_remove_invitation}
use multi_threaded_tic_tac_t.ClientList.Update.{leaves, remove_listed}

-- The clients of an invitation and their ids for it.
pub record Sides : Type 0 where
  pub source : Client
  pub target : Client
  pub source_id : ℕ
  pub target_id : ℕ

-- An invitation without a game, in any state, that only the lists of its two clients hold.
pub record Offered (w : World) (inv : Ptr) (i : Invitation) (d : Sides) : Type 0 where
  pub inv_ne : inv ≢ null
  pub source_ne : i.sender ≢ null
  pub target_ne : i.recipient ≢ null
  pub no_game : i.game ≡ null
  pub apart : i.sender ≢ i.recipient
  pub inv_live : w.invs inv ≡ some i
  pub inv_count : i.ref_count ≡ 2
  pub source_live : w.clients i.sender ≡ some d.source
  pub target_live : w.clients i.recipient ≡ some d.target
  pub source_count : 1 < d.source.ref_count
  pub target_count : 1 < d.target.ref_count
  pub source_listed : find_by_invitation d.source.invitations inv ≡ some d.source_id
  pub target_listed : find_by_invitation d.target.invitations inv ≡ some d.target_id
  pub free : w.held ≡ []

-- A client after its list gave up the invitation, and the invitation its reference to it.
abbrev pub released : Ptr → Client → Client
released inv k = record (leaves k inv) { ref_count = k.ref_count - 1 }

-- What is left of an invitation that was withdrawn: it is freed, both clients have dropped it and
-- lost the reference that it held, and no mutex is locked.
pub record Withdrawn (v : World) (inv : Ptr) (i : Invitation) (d : Sides) : Type 0 where
  pub inv_freed : v.invs inv ≡ none
  pub source_left : v.clients i.sender ≡ some (released inv d.source)
  pub target_left : v.clients i.recipient ≡ some (released inv d.target)
  pub unlocked : v.held ≡ []

module _ (env : Env) (w : World) (inv : Ptr) (i : Invitation) (d : Sides)
    (p : Offered w inv i d) where
  abbrev pub once : Invitation
  once = record i { ref_count = 1 }

  shut : holds (inv_lock inv) w.held ≡ false
  unfolding holds
  shut = rw p.free

  -- The source's node goes first where the invitation is revoked, the target's where it is
  -- declined.
  abbrev pub source_gone : World
  source_gone = record w {
    clients = update w.clients i.sender (some (leaves d.source inv));
    invs = update w.invs inv (some once);
  }

  abbrev pub target_gone : World
  target_gone = record w {
    clients = update w.clients i.recipient (some (leaves d.target inv));
    invs = update w.invs inv (some once);
  }

  -- Both nodes are gone: `v` is the memory without the first one.
  abbrev pub unlisted : Ptr → Client → World → World
  unlisted a k v = record v { clients = update v.clients a (some (leaves k inv)) }

  -- The invitation is freed, and both clients lose a reference.
  abbrev pub gone : World → World
  gone v = record v {
    clients =
        update (update v.clients i.sender (some (released inv d.source))) i.recipient
          (some (released inv d.target));
    invs = update v.invs inv none;
  }

  pub remove_source : client_remove_invitation i.sender inv w ≡ done (some d.source_id) source_gone
  remove_source =
      rw
        (
          remove_listed w i.sender inv d.source d.source_id p.source_ne p.inv_ne p.source_live
              p.source_listed p.free,
          inv_unref_shared (unlisted i.sender d.source w) inv i p.inv_ne p.inv_live
              (omega (arith, p.inv_count)) shut,
        )
        (ground (arith, p.inv_count))

  pub remove_target :
      client_remove_invitation i.recipient inv w ≡ done (some d.target_id) target_gone
  remove_target =
      rw
        (
          remove_listed w i.recipient inv d.target d.target_id p.target_ne p.inv_ne p.target_live
              p.target_listed p.free,
          inv_unref_shared (unlisted i.recipient d.target w) inv i p.inv_ne p.inv_live
              (omega (arith, p.inv_count)) shut,
        )
        (ground (arith, p.inv_count))

  Owned-after_source :
      Owned
        (unlisted i.recipient d.target source_gone)
        once
        (leaves d.source inv)
        (leaves d.target inv)
  Owned-after_source = record {
    source_ne = p.source_ne;
    target_ne = p.target_ne;
    apart = p.apart;
    source_live = ground (arith, p.apart);
    target_live = ground arith;
    source_count = p.source_count;
    target_count = p.target_count;
    free = p.free;
  }

  Owned-after_target :
      Owned
        (unlisted i.sender d.source target_gone)
        once
        (leaves d.source inv)
        (leaves d.target inv)
  Owned-after_target = record {
    source_ne = p.source_ne;
    target_ne = p.target_ne;
    apart = p.apart;
    source_live = ground arith;
    target_live = ground (arith, p.apart);
    source_count = p.source_count;
    target_count = p.target_count;
    free = p.free;
  }

  pub remove_target_last :
      client_remove_invitation i.recipient inv source_gone
      ≡ done (some d.target_id) (gone (unlisted i.recipient d.target source_gone))
  remove_target_last = rw (
    remove_listed source_gone i.recipient inv d.target d.target_id p.target_ne p.inv_ne
        (ground (arith, p.apart, p.target_live)) p.target_listed p.free,
    inv_unref_last_open (unlisted i.recipient d.target source_gone) inv once (leaves d.source inv)
        (leaves d.target inv) Owned-after_source p.inv_ne (ground arith) refl p.no_game,
  )

  pub remove_source_last :
      client_remove_invitation i.sender inv target_gone
      ≡ done (some d.source_id) (gone (unlisted i.sender d.source target_gone))
  remove_source_last = rw (
    remove_listed target_gone i.sender inv d.source d.source_id p.source_ne p.inv_ne
        (ground (arith, p.apart, p.source_live)) p.source_listed p.free,
    inv_unref_last_open (unlisted i.sender d.source target_gone) inv once (leaves d.source inv)
        (leaves d.target inv) Owned-after_target p.inv_ne (ground arith) refl p.no_game,
  )
