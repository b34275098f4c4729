-- ===== src/Requests/NotAccepting.antt =====
-- Acceptances that `client_accept_invitation` of src/client.c refuses, or for which there is no
-- memory.
use multi_threaded_tic_tac_t.Base.{
  ℕ, ◌+◌, ◌≡◌, refl, ◌≢◌, ◌⊎◌, inl, inr, false, Option, some, List, [], ◌∷◌, arith,
}
use multi_threaded_tic_tac_t.Objects.{
  Ptr, null, Invitation, Client, inv_open_state, inv_accepted_state,
}
use multi_threaded_tic_tac_t.World.{
  Env, World, done, holds, without, same_mutex, lock, unlock, client_lock, update, request,
  load_client, load_inv,
}
use multi_threaded_tic_tac_t.GameObject
use multi_threaded_tic_tac_t.Invitation.{inv_get_game, inv_get_source, inv_get_target, inv_accept}
use multi_threaded_tic_tac_t.ClientList.{find_by_id}
use multi_threaded_tic_tac_t.Requests.{may_accept, client_accept_invitation}
use multi_threaded_tic_tac_t.Requests.Outcomes.{NotAllowed}
use multi_threaded_tic_tac_t.Requests.Accepting.{Acceptable}

module _ (env : Env) (w : World) (inv : Ptr) (i : Invitation) (source target : Client)
    (source_id id : ℕ) (str : Option (List ℕ))
    (p : Acceptable w inv i source target source_id id) where
  abbrev locked : World → World
  locked v = record v { held = client_lock i.recipient ∷ [] }

  accepts_no_memory :
      env.allocate w.requests ≡ false
      → inv_accept env inv (locked w)
        ≡ done false (
            locked (record w {
              invs =
                  update w.invs inv (some (record i { state = inv_accepted_state; game = null }));
              requests = w.requests + 1;
            }))
  unfolding inv_accept GameObject.game_create load_inv request lock unlock holds without same_mutex
  accepts_no_memory g = ground (arith, p.inv_ne, p.inv_live, p.is_open)

  -- The target accepts an open invitation that both clients list (`Acceptable`). Where the game is
  -- not granted, the request fails but the invitation is left ACCEPTED without a game.
  pub client_accept_invitation_no_memory :
      env.allocate w.requests ≡ false
      → (v : World) × (client_accept_invitation env i.recipient id str w ≡ done (false, str) v)
        × (v.invs inv ≡ some (record i { state = inv_accepted_state; game = null }))
        × (v.sent ≡ w.sent)
        × (v.held ≡ [])
  unfolding client_accept_invitation may_accept inv_get_source inv_get_target inv_get_game load_inv
      load_client lock unlock holds without same_mutex
  client_accept_invitation_no_memory g = (
    record w {
      invs = update w.invs inv (some (record i { state = inv_accepted_state; game = null }));
      requests = w.requests + 1;
      held = [];
    },
    ground (
      arith,
      p.free,
      p.inv_ne,
      p.no_game,
      p.inv_live,
      p.target_live,
      p.target_listed,
      accepts_no_memory g,
    ),
    ground arith,
    refl,
    refl,
  )

-- Why an acceptance is refused: the id is unknown, a game is in progress, the client is not the
-- target, or the invitation is no longer open.
abbrev pub NotAcceptable : World → Client → Ptr → ℕ → Type 0
NotAcceptable w k client id =
    NotAllowed w k client (λ i. i.recipient) id
    ⊎ ((inv : Ptr) × (i : Invitation) × (find_by_id k.invitations id ≡ some inv)
        × (inv ≢ null)
        × (w.invs inv ≡ some i)
        × (i.recipient ≡ client)
        × (i.game ≡ null)
        × (i.state ≢ inv_open_state))

-- An acceptance that is refused changes nothing, sends nothing, and hands out no picture: `*strp`
-- is as it was.
pub client_accept_invitation_refused :
    (env : Env) (w : World) (client : Ptr) (k : Client) (id : ℕ) (str : Option (List ℕ))
    → w.clients client ≡ some k
    → w.held ≡ []
    → NotAcceptable w k client id
    → client_accept_invitation env client id str w ≡ done (false, str) w
unfolding client_accept_invitation may_accept inv_accept inv_get_source inv_get_target inv_get_game
    load_inv load_client lock unlock holds without same_mutex
client_accept_invitation_refused env w client k id str live free (inl (inl absent)) = ground arith
client_accept_invitation_refused env w client k id str live free
      (inl (inr (inv, i, listed, n, il, inl busy))) =
    ground arith
client_accept_invitation_refused env w client k id str live free
      (inl (inr (inv, i, listed, n, il, inr foreign))) =
    ground arith
client_accept_invitation_refused env w client k id str live free
      (inr (inv, i, listed, n, il, mine, no_game, closed)) =
    ground arith
