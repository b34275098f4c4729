-- ===== src/Session/Logout.antt =====
-- What `client_login` and `client_logout` of src/client.c do with the client's mark and the
-- player's references.
use multi_threaded_tic_tac_t.Base.{ℕ, ◌+◌, ◌≡◌, refl, ◌≢◌, true, false, some, [], arith, ==_self}
use multi_threaded_tic_tac_t.Objects.{Ptr, null, Player, Client}
use multi_threaded_tic_tac_t.World.{
  Env, World, done, holds, without, same_mutex, lock, unlock, update, load_client, load_player,
  unlocked_world,
}
use multi_threaded_tic_tac_t.Player.{player_unref}
use multi_threaded_tic_tac_t.Session.{client_login, client_logout, leave_all}

-- A client that is logged in and has no invitations; its player has `n + 1` references.
pub record Idle (w : World) (c : Ptr) (k : Client) (p : Player) (n : ℕ) : Type 0 where
  pub client_ne : c ≢ null
  pub live : w.clients c ≡ some k
  pub logged_in : k.logged_in ≡ true
  pub player_ne : k.player ≢ null
  pub player_live : w.players k.player ≡ some p
  pub no_invitations : k.invitations ≡ []
  pub count : p.ref_count ≡ n + 1
  pub free : w.held ≡ []

-- The memory with one reference to the player less.
abbrev pub dropped : World → Client → Player → ℕ → World
dropped w k p n = record w {
  players = update w.players k.player (some (record p { ref_count = n }));
}

pub logout_shared :
    (env : Env) (w : World) (c : Ptr) (k : Client) (p : Player) (n : ℕ)
    → Idle w c k p n
    → n ≢ 0
    → client_logout env c w ≡ done true (dropped w k p n)
unfolding client_logout leave_all player_unref load_client load_player lock unlock holds without
    same_mutex
logout_shared env w c k p n h ne =
    let a = h.client_ne in
    let b = h.live in
    ground (
      arith,
      a,
      b,
      h.logged_in,
      h.player_ne,
      h.player_live,
      h.no_invitations,
      h.count,
      h.free,
      unlocked_world w,
    )

-- A client that is logged out stays marked as logged in: logging out a second time succeeds again
-- and gives up a second reference to the player.
pub client_logout_twice :
    (env : Env) (w : World) (c : Ptr) (k : Client) (p : Player) (n : ℕ)
    → Idle w c k p (n + 2)
    → (v u : World) × (client_logout env c w ≡ done true v)
      × (v.clients c ≡ some k)
      × (client_logout env c v ≡ done true u)
      × (u.clients c ≡ some k)
      × (u.players k.player ≡ some (record p { ref_count = n + 1 }))
client_logout_twice env w c k p n h =
    let q = record p { ref_count = n + 2 } in
    let v = dropped w k p (n + 2) in
    let again : Idle v c k q (n + 1) = record {
      client_ne = h.client_ne;
      live = h.live;
      logged_in = h.logged_in;
      player_ne = h.player_ne;
      player_live = rw (==_self k.player) refl;
      no_invitations = h.no_invitations;
      count = omega arith;
      free = h.free;
    } in
    (
      v,
      dropped v k q (n + 1),
      logout_shared env w c k p (n + 2) h (omega arith),
      h.live,
      logout_shared env v c k q (n + 1) again (omega arith),
      h.live,
      rw (==_self k.player) refl,
    )

-- A client that is logged in cannot log in again: the answer is the failure, and nothing changes.
pub client_login_second :
    (env : Env) (w : World) (c player : Ptr) (k : Client)
    → c ≢ null
    → w.clients c ≡ some k
    → k.logged_in ≡ true
    → w.held ≡ []
    → client_login env c player w ≡ done false w
unfolding client_login load_client lock unlock holds without same_mutex
client_login_second env w c player k n live logged free = ground (arith, unlocked_world w free)
