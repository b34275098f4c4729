-- ===== src/Invitation/States.antt =====
-- The state machine of src/invitation.c: open, accepted, closed.
use multi_threaded_tic_tac_t.Base.{
  ℕ, ◌+◌, ◌≤◌, ◌≡◌, ◌≢◌, inl, inr, Bool, true, false, Option, none, some, [], arith, ==_self,
  Option-cases, subst,
}
use multi_threaded_tic_tac_t.Objects.{
  Ptr, null, Invitation, InvitationState, inv_open_state, inv_accepted_state, inv_closed_state,
}
use multi_threaded_tic_tac_t.World.{
  Env, World, done, M, holds, without, same_mutex, lock, unlock, request, load_inv, load_game,
  update,
}
use multi_threaded_tic_tac_t.Game.{Game, GameRole, null_role, first_player_role, second_player_role}
use multi_threaded_tic_tac_t.Game
use multi_threaded_tic_tac_t.GameObject
use multi_threaded_tic_tac_t.Invitation.{inv_accept, inv_close, resign_in_progress}

unfoldable pub rank : InvitationState → ℕ
rank inv_open_state = 0
rank inv_accepted_state = 1
rank inv_closed_state = 2

-- The same invitation at a later time: its state is not an earlier one.
pub record Follows (i j : Invitation) : Type 0 where
  pub later : rank i.state ≤ rank j.state
  pub same_sender : j.sender ≡ i.sender
  pub same_recipient : j.recipient ≡ i.recipient
  pub same_source_role : j.source_role ≡ i.source_role
  pub same_target_role : j.target_role ≡ i.target_role

abbrev pub FollowsIn : Invitation → Option Invitation → Type 0
FollowsIn i none = ⊥
FollowsIn i (some j) = Follows i j

module _ (p : Ptr) (w : World) (i : Invitation) (here : w.invs p ≡ some i) where
  inv_accept_follows :
      (env : Env) (b : Bool) (v : World) → inv_accept env p w ≡ done b v → FollowsIn i (v.invs p)
  unfolding inv_accept lock unlock load_inv rank GameObject.game_create request
  inv_accept_follows env b v e = ground (arith, ==_self p)

  inv_close_follows :
      (role : GameRole) (b : Bool) (v : World)
      → inv_close p role w ≡ done b v
      → FollowsIn i (v.invs p)
  unfolding inv_close lock unlock load_inv rank resign_in_progress GameObject.game_resign load_game
  inv_close_follows role b v e = ground (arith, ==_self p)

-- An operation on the state of an invitation.
pub data Action : Type 0 where
  accepts : Env → Action
  closes : GameRole → Action

abbrev pub run : Action → Ptr → M Bool
run (accepts env) p = inv_accept env p
run (closes role) p = inv_close p role

-- Operations on one invitation, in any order and with any result.
pub data Actions (p : Ptr) : World → World → Type 0 where
  nothing : {w : World} → Actions p w w
  act :
      {w v u : World}
      → (a : Action) → (b : Bool) → run a p w ≡ done b v
      → Actions p v u
      → Actions p w u

abbrev run_follows :
    (a : Action) (p : Ptr) (b : Bool) (w v : World) (i : Invitation)
    → w.invs p ≡ some i
    → run a p w ≡ done b v
    → FollowsIn i (v.invs p)
run_follows (accepts env) p b w v i here e = inv_accept_follows p w i here env b v e
run_follows (closes role) p b w v i here e = inv_close_follows p w i here role b v e

FollowsIn_trans :
    (i j : Invitation) (o : Option Invitation) → Follows i j → FollowsIn j o → FollowsIn i o
FollowsIn_trans i j none f g = g
FollowsIn_trans i j (some k) f g = ground arith

-- However an invitation is accepted and closed, and whatever the operations answer, it keeps its
-- clients and roles, and its state never goes back: an accepted invitation is not open again, and
-- a closed one stays closed.
pub Actions-Follows :
    (p : Ptr) (w v : World) (i : Invitation)
    → w.invs p ≡ some i
    → Actions p w v
    → FollowsIn i (v.invs p)
unfolding rank
Actions-Follows p w v i here nothing = rw here (ground arith)
Actions-Follows p w u i here (act {v = v} a b e rest) =
    let first = run_follows a p b w v i here e in
    elim (Option-cases (v.invs p)) [
      | inl gone ↦ absurd (subst (FollowsIn i) gone first)
      | inr (j, there) ↦
          FollowsIn_trans i j (u.invs p) (subst (FollowsIn i) there first)
            (Actions-Follows p v u j there rest)
    ]

-- The memory after an open invitation is accepted.
abbrev accepted_world : World → Ptr → Invitation → World
accepted_world w p i = record w {
  games = update w.games w.fresh (some Game.game_create);
  invs = update w.invs p (some (record i { state = inv_accepted_state; game = w.fresh }));
  fresh = w.fresh + 1;
  requests = w.requests + 1;
}

-- An open invitation can be accepted once: it then has a new game, and a second acceptance
-- is refused and changes nothing.
pub inv_accept_once :
    (env : Env) (p : Ptr) (w : World) (i : Invitation)
    → w.held ≡ []
    → p ≢ null
    → w.fresh ≢ null
    → w.invs p ≡ some i
    → i.state ≡ inv_open_state
    → env.allocate w.requests ≡ true
    → (v : World) × (inv_accept env p w ≡ done true v)
      × (v.invs p ≡ some (record i { state = inv_accepted_state; game = w.fresh }))
      × (v.games w.fresh ≡ some Game.game_create)
      × (inv_accept env p v ≡ done false v)
unfolding inv_accept lock unlock load_inv GameObject.game_create request holds without same_mutex
inv_accept_once env p w i free n m here o granted = (
  accepted_world w p i,
  ground arith,
  ground (arith, ==_self p),
  ground (arith, ==_self w.fresh),
  ground (arith, ==_self p),
)
