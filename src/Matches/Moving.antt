-- ===== src/Matches/Moving.antt =====
-- `client_make_move` of src/client.c where every write succeeds.
use multi_threaded_tic_tac_t.Base.{
  ℕ, ◌%◌, ◌≡◌, refl, ◌≢◌, ◌⊎◌, inl, inr, true, false, none, some, List, [], ◌∷◌, arith, length,
}
use multi_threaded_tic_tac_t.Game.{
  GameRole, first_player_role, second_player_role, Game, GameMove, game_is_over, game_get_winner,
  game_parse_move, game_unparse_state,
}
use multi_threaded_tic_tac_t.Game
use multi_threaded_tic_tac_t.Game.Display.{length-game_unparse_state}
use multi_threaded_tic_tac_t.Objects.{Ptr, null, Invitation, Client}
use multi_threaded_tic_tac_t.Protocol.{Header, moved_pkt}
use multi_threaded_tic_tac_t.World.{
  Env, World, done, holds, without, same_mutex, lock, unlock, client_lock, game_lock, update,
  load_client, load_inv, load_game,
}
use multi_threaded_tic_tac_t.GameObject.{game_apply_move}
use multi_threaded_tic_tac_t.Client.{make_packet}
use multi_threaded_tic_tac_t.Client.Sending.{AllWritten, after_packet, send_packet}
use multi_threaded_tic_tac_t.ClientList.{find_by_id, find_by_invitation}
use multi_threaded_tic_tac_t.Matches.{
  opponent_in, role_in, try_move, end_move, announce_move, client_make_move,
}

-- `client` knows the invitation `inv` with a game under `id`, and no mutex is locked.
pub record Match (w : World) (client id inv : Ptr) : Type 0 where
  pub self : Client
  pub other : Client
  pub i : Invitation
  pub game : Game
  pub other_id : ℕ
  pub self_live : w.clients client ≡ some self
  pub listed : find_by_id self.invitations id ≡ some inv
  pub inv_live : w.invs inv ≡ some i
  pub game_ne : i.game ≢ null
  pub game_live : w.games i.game ≡ some game
  pub opponent_ne : opponent_in i client ≢ null
  pub opponent_other : opponent_in i client ≢ client
  pub other_live : w.clients (opponent_in i client) ≡ some other
  pub other_listed : find_by_invitation other.invitations inv ≡ some other_id
  pub free : w.held ≡ []

module _ (i : Invitation) (client : Ptr) (move : List ℕ) (w : World) (g : Game) (ne : i.game ≢ null)
    (live : w.games i.game ≡ some g) (free : holds (game_lock i.game) w.held ≡ false) where
  pub try_move_legal :
      (m : GameMove) (h : Game)
      → game_parse_move g (role_in i client) move ≡ some m
      → Game.game_apply_move g m ≡ some h
      → try_move i client move w ≡ done true (record w { games = update w.games i.game (some h) })
  unfolding try_move game_apply_move load_game lock unlock without same_mutex
  try_move_legal m h p a = ground arith

  pub try_move_unreadable :
      game_parse_move g (role_in i client) move ≡ none → try_move i client move w ≡ done false w
  unfolding try_move load_game
  try_move_unreadable p = ground arith

  pub try_move_illegal :
      (m : GameMove)
      → game_parse_move g (role_in i client) move ≡ some m
      → Game.game_apply_move g m ≡ none
      → try_move i client move w ≡ done false w
  unfolding try_move game_apply_move load_game lock unlock without same_mutex
  try_move_illegal m p a = ground arith

-- The header of the MOVED packet.
abbrev pub moved_header : ℕ → Game → Header
moved_header id g = record (make_packet moved_pkt (length (game_unparse_state g))) { id = id % 256 }

announce_running :
    (env : Env)
    → AllWritten env
    → (w : World) (client inv : Ptr) (i : Invitation) (opponent_id id : ℕ) (h : Game)
      (other : Client)
    → w.games i.game ≡ some h
    → game_is_over h ≡ false
    → opponent_in i client ≢ null
    → w.clients (opponent_in i client) ≡ some other
    → holds (client_lock (opponent_in i client)) w.held ≡ false
    → announce_move env client inv i opponent_id id w
      ≡ done true
          (record (after_packet env other.fd
            (moved_header opponent_id h)
            (game_unparse_state h)
            w) { held = without (client_lock client) w.held })
unfolding announce_move end_move load_game make_packet unlock
announce_running env ok w client inv i opponent_id id h other live o ne olive free = ground (
  arith,
  length-game_unparse_state h,
  send_packet env ok w (opponent_in i client) other (moved_header opponent_id h) ne olive free
      (game_unparse_state h),
)

-- The memory after a move that does not end the game: the new game, and the MOVED packet with its
-- picture to the opponent, under the opponent's id.
abbrev pub after_move : Env → World → Ptr → Client → ℕ → Game → World
after_move env w game other other_id h =
    after_packet env other.fd (moved_header other_id h) (game_unparse_state h)
      (record w { games = update w.games game (some h) })

-- A client and its opponent know an invitation with a game (`Match`), and every write succeeds. A
-- legal move that does not end the game is applied to it, and sent to the opponent with the
-- opponent's id and the new picture; nothing else changes, and no mutex stays locked.
pub client_make_move_running :
    (env : Env) (w : World) (client id inv : Ptr) (move : List ℕ) (t : Match w client id inv)
    (m : GameMove) (h : Game)
    → AllWritten env
    → game_parse_move t.game (role_in t.i client) move ≡ some m
    → Game.game_apply_move t.game m ≡ some h
    → game_is_over h ≡ false
    → client_make_move env client id move w
      ≡ done true (after_move env w t.i.game t.other t.other_id h)
unfolding client_make_move load_client load_inv lock holds without same_mutex
client_make_move_running env w client id inv move t m h ok p a o =
    let w1 : World = record w { held = client_lock client ∷ [] } in
    let w2 : World = record w1 { games = update w.games t.i.game (some h) } in
    ground (
      arith,
      try_move_legal t.i client move w1 t.game t.game_ne t.game_live refl m h p a,
      announce_running env ok w2 client inv t.i t.other_id id h t.other,
    )

-- Why a move is refused: no invitation has the id, the invitation has no game, the text is no move
-- of the client's role, or the move is illegal.
abbrev pub Refused : World → Client → Ptr → ℕ → List ℕ → Type 0
Refused w self client id move =
    (find_by_id self.invitations id ≡ none)
    ⊎ (inv : Ptr) × (i : Invitation) × (find_by_id self.invitations id ≡ some inv)
      × (w.invs inv ≡ some i)
      × ((i.game ≡ null)
          ⊎ ((g : Game) × (i.game ≢ null)
              × (w.games i.game ≡ some g)
              × ((game_parse_move g (role_in i client) move ≡ none)
                  ⊎ ((m : GameMove) × (game_parse_move g (role_in i client) move ≡ some m)
                      × (Game.game_apply_move g m ≡ none)))))

-- A move that is refused changes nothing at all, sends nothing, and leaves no mutex locked.
pub client_make_move-Refused :
    (env : Env) (w : World) (client id : Ptr) (self : Client) (move : List ℕ)
    → w.clients client ≡ some self
    → w.held ≡ []
    → Refused w self client id move
    → client_make_move env client id move w ≡ done false w
unfolding client_make_move load_client load_inv lock unlock holds without same_mutex
client_make_move-Refused env w client id self move live free (inl absent) = ground arith
client_make_move-Refused env w client id self move live free
      (inr (inv, i, listed, il, inl no_game)) =
    ground arith
client_make_move-Refused env w client id self move live free
      (inr (inv, i, listed, il, inr (g, ne, gl, inl bad))) =
    ground (
      arith,
      try_move_unreadable i client move (record w { held = client_lock client ∷ [] }) g ne gl refl
          bad,
    )
client_make_move-Refused env w client id self move live free
      (inr (inv, i, listed, il, inr (g, ne, gl, inr (m, e, illegal)))) =
    ground (
      arith,
      try_move_illegal i client move (record w { held = client_lock client ∷ [] }) g ne gl refl m e
          illegal,
    )
