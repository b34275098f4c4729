-- ===== src/Examples/Setting.antt =====
-- A memory of the server with two clients that play a game: objects of src/player.c, src/client.c,
-- src/invitation.c and src/game.c.
use multi_threaded_tic_tac_t.Base.{ℕ, ◌+◌, ◌≡◌, ◌≢◌, refl, true, false, Option, none, some, [], ◌∷◌}
use multi_threaded_tic_tac_t.Game.{null_role, first_player_role, second_player_role, Game}
use multi_threaded_tic_tac_t.Objects.{
  Ptr, null, initial, Player, Invitation, InvitationState, inv_open_state, inv_accepted_state,
  Client,
}
use multi_threaded_tic_tac_t.World.{written, Env, World, update}
use multi_threaded_tic_tac_t.ClientList.{find_by_id, find_by_invitation}
use multi_threaded_tic_tac_t.Client.Sending.{AllWritten}

-- Everything is granted and written.
abbrev pub env : Env
env = record {
  allocate = λ n. true;
  write = λ n. written;
  clock = λ n. (1700000000 + n, 5);
  rating_text = λ r. b'1' ∷ b'5' ∷ b'0' ∷ b'0' ∷ [];
}

pub env-AllWritten : AllWritten env
env-AllWritten n = refl

-- Nothing is granted.
abbrev pub full : Env
full = record env { allocate = λ n. false }

abbrev pub ann : Player
ann = record { username = b'a' ∷ b'n' ∷ b'n' ∷ []; rating = initial; ref_count = 3 }

abbrev pub bob : Player
bob = record { username = b'b' ∷ b'o' ∷ b'b' ∷ []; rating = initial; ref_count = 3 }

-- The client of a player, with one invitation or none.
abbrev pub with_node : ℕ → Ptr → ℕ → Client
with_node fd player id = record {
  fd = fd;
  ref_count = 2;
  logged_in = true;
  player = player;
  invitations = record { invitation = 1; id = id } ∷ [];
}

abbrev pub idle : ℕ → Ptr → Client
idle fd player = record (with_node fd player 0) { ref_count = 1; invitations = [] }

-- X is ann, O is bob; O is on the move and wins at 3:
--   O|O|
--   X|X|
--    | |X
abbrev pub position : Game
position = record {
  turn_X = false;
  num_turns = 5;
  board = 2 ∷ 2 ∷ 0 ∷ 1 ∷ 1 ∷ 0 ∷ 0 ∷ 0 ∷ 1 ∷ [];
  winner = null_role;
  terminated = false;
  ref_count = 1;
}

-- The invitation of ann's client 1 to bob's client 2.
abbrev pub invitation : InvitationState → Ptr → Invitation
invitation state game = record {
  ref_count = 2;
  sender = 1;
  recipient = 2;
  source_role = first_player_role;
  target_role = second_player_role;
  game = game;
  state = state;
}

abbrev pub memory : Client → Client → Option Invitation → World
memory c d i = record {
  players = update (update (λ p. none) 1 (some ann)) 2 (some bob);
  games = update (λ p. none) 1 (some position);
  invs = update (λ p. none) 1 i;
  clients = update (update (λ p. none) 1 (some c)) 2 (some d);
  fresh = 9;
  requests = 0;
  held = [];
  writes = 0;
  sent = [];
  shut = [];
  client_registry = record { P_flag = false; head = 2 ∷ 1 ∷ []; client_count = 2; semaphore = 0 };
  player_registry =
      record { name = ann.username; player = 1 } ∷ record { name = bob.username; player = 2 } ∷ [];
}

-- The clients play; they know the invitation as 4 and 7.
abbrev pub playing : World
playing = memory (with_node 4 1 4) (with_node 5 2 7) (some (invitation inv_accepted_state 1))

-- The invitation is open.
abbrev pub invited_world : World
invited_world = memory (with_node 4 1 4) (with_node 5 2 7) (some (invitation inv_open_state null))

-- There is no invitation.
abbrev pub lobby : World
lobby = memory (idle 4 1) (idle 5 2) none

pub one-two : ◌≢◌ {A = ℕ} 1 2
one-two = cc

pub two-one : ◌≢◌ {A = ℕ} 2 1
two-one = cc

pub one-null : 1 ≢ null
one-null = cc

pub two-null : 2 ≢ null
two-null = cc

pub nine-null : 9 ≢ null
nine-null = cc

-- The clients find the invitation under their ids, and the ids under the invitation.
pub ann_listed : find_by_id (with_node 4 1 4).invitations 4 ≡ some 1
unfolding find_by_id
ann_listed = refl

pub bob_listed : find_by_id (with_node 5 2 7).invitations 7 ≡ some 1
unfolding find_by_id
bob_listed = refl

pub ann_knows : find_by_invitation (with_node 4 1 4).invitations 1 ≡ some 4
unfolding find_by_invitation
ann_knows = refl

pub bob_knows : find_by_invitation (with_node 5 2 7).invitations 1 ≡ some 7
unfolding find_by_invitation
bob_knows = refl
