-- ===== src/Objects.antt =====
-- The structs of src/player.c, src/invitation.c, src/client.c and src/client_registry.c. A pointer
-- is a number, `null` is NULL, and the objects of each kind have addresses of their own. The
-- doubly linked lists are lists, first node first. A mutex is not a field: see `World`.
use multi_threaded_tic_tac_t.Base.{ℕ, Bool, List}
use multi_threaded_tic_tac_t.Game.{GameRole}

abbrev pub Ptr : Type 0
Ptr = ℕ

abbrev pub null : Ptr
null = 0

abbrev pub Name : Type 0
Name = List ℕ

-- The score of a player in a game: 1.0, 0.5 or 0.0.
pub data Score : Type 0 where
  win_score draw_score loss_score : Score

-- The double in `player->rating`, as the computation that `player_post_result` makes:
-- `initial` is PLAYER_INITIAL_RATING, `plus_first r r1 r2 s` is `r + 32.0 * (s - expected1)` and
-- `plus_second r r1 r2 s` is `r + 32.0 * (s - expected2)` for the ratings `r1` and `r2` from
-- which the two expected scores were computed.
pub data Rating : Type 0 where
  initial : Rating
  plus_first plus_second : Rating → Rating → Rating → Score → Rating

pub record Player : Type 0 where
  pub username : Name
  pub rating : Rating
  pub ref_count : ℕ

pub data InvitationState : Type 0 where
  inv_open_state inv_accepted_state inv_closed_state : InvitationState

pub record Invitation : Type 0 where
  pub ref_count : ℕ
  pub sender : Ptr
  pub recipient : Ptr
  pub source_role : GameRole
  pub target_role : GameRole
  pub game : Ptr
  pub state : InvitationState

-- INVITATION_NODE
pub record InvitationNode : Type 0 where
  pub invitation : Ptr
  pub id : ℕ

pub record Client : Type 0 where
  pub fd : ℕ
  pub ref_count : ℕ
  pub logged_in : Bool
  pub player : Ptr
  pub invitations : List InvitationNode

pub record ClientRegistry : Type 0 where
  pub P_flag : Bool
  pub head : List Ptr
  pub client_count : ℕ
  pub semaphore : ℕ

-- PLAYER_REGISTRY_NODE
pub record PlayerNode : Type 0 where
  pub name : Name
  pub player : Ptr
