-- ===== src/Matches/Final.antt =====
-- `client_make_move` of src/client.c for a move that ends the game.
use multi_threaded_tic_tac_t.Base.{
  ℕ, ◌-◌, ◌≡◌, refl, ap, ◌∙◌, ◌≢◌, ◌⊎◌, true, none, some, [], ◌∷◌, arith, ◌==◌, if◌then◌else◌,
}
use multi_threaded_tic_tac_t.Game.{GameRole}
use multi_threaded_tic_tac_t.Objects.{Ptr, null, Score, Player, Invitation, Client}
use multi_threaded_tic_tac_t.World.{
  Env, World, written, done, holds, without, same_mutex, lock, unlock, client_lock, update,
}
use multi_threaded_tic_tac_t.Player.{scores}
use multi_threaded_tic_tac_t.Client.{client_send_packet, make_packet}
use multi_threaded_tic_tac_t.Client.Sending.{AllWritten, after_header, send_header}
use multi_threaded_tic_tac_t.Requests.{id_packet}
use multi_threaded_tic_tac_t.Matches.{
  opponent_in, result_code, ended_packet, post_result, finish_move,
}
use multi_threaded_tic_tac_t.ClientList.Update.{leaves}
use multi_threaded_tic_tac_t.Matches.Removing.{Objects, Pair, after_both, remove_both_lem}
use multi_threaded_tic_tac_t.Matches.Ending.{IsPlaying, rated_first, rated_second, post_result_lem}

-- The client that makes the move, and its opponent.
abbrev pub mover : Invitation → Objects → Ptr → Client
mover i d client = if client == i.sender then d.source else d.target

abbrev pub waiter : Invitation → Objects → Ptr → Client
waiter i d client = if client == i.sender then d.target else d.source

-- The memory after the invitation is gone and the result is posted, with the scores of the client
-- that moved and of its opponent.
abbrev pub after_post :
    (w : World) (inv : Ptr) (i : Invitation) (d : Objects) (client : Ptr) (mine theirs : Player)
    → Score
    → Score
    → World
after_post w inv i d client mine theirs s t = record (after_both w inv i d) {
  players =
      update (update w.players (mover i d client).player (some (rated_first mine theirs s)))
        (waiter i d client).player (some (rated_second mine theirs t));
}

module _ (env : Env) (ok : AllWritten env) (w : World) (inv : Ptr) (i : Invitation) (d : Objects)
    (p : Pair w inv i d) (client : Ptr) (member : (client ≡ i.sender) ⊎ (client ≡ i.recipient))
    (mine theirs : Player) (playing : IsPlaying w (mover i d client) mine)
    (opposing : IsPlaying w (waiter i d client) theirs)
    (apart : (mover i d client).player ≢ (waiter i d client).player) (s t : Score) where
  abbrev relocked : World
  relocked = record (after_both w inv i d) { held = client_lock client ∷ [] }

  -- A client after its list gave up the invitation, and the invitation its reference to it.
  abbrev released : Client → Client
  released k = record (leaves k inv) { ref_count = k.ref_count - 1 }

  abbrev mover_ptr : Ptr
  mover_ptr = if client == i.sender then i.sender else i.recipient

  mover_live : relocked.clients mover_ptr ≡ some (released (mover i d client))
  mover_live = ground (arith, p.apart)

  waiter_live : relocked.clients (opponent_in i client) ≡ some (released (waiter i d client))
  waiter_live = ground (arith, p.apart)

  mover_plays : IsPlaying relocked (released (mover i d client)) mine
  mover_plays = record {
    logged_in = playing.logged_in;
    player_ne = playing.player_ne;
    player_live = playing.player_live;
  }

  waiter_plays : IsPlaying relocked (released (waiter i d client)) theirs
  waiter_plays = record {
    logged_in = opposing.logged_in;
    player_ne = opposing.player_ne;
    player_live = opposing.player_live;
  }

  mover_ne : mover_ptr ≢ null
  mover_ne = ground (arith, p.source_ne, p.target_ne)

  waiter_ne : opponent_in i client ≢ null
  waiter_ne = ground (arith, p.source_ne, p.target_ne)

  post_after_both :
      (code : ℕ)
      → scores code ≡ some (s, t)
      → post_result mover_ptr (opponent_in i client) code relocked
        ≡ done tt (record (after_post w inv i d client mine theirs s t) {
          held = client_lock client ∷ [];
        })
  unfolding holds same_mutex
  post_after_both code sc =
      post_result_lem relocked mover_ptr (opponent_in i client) (released (mover i d client))
        (released (waiter i d client)) mine theirs s t code mover_ne waiter_ne mover_live
        waiter_live mover_plays waiter_plays apart sc refl refl

-- Writes, the results of other games and the state of this one do not disturb a pair.
pub Pair-frame :
    {w v : World} {inv : Ptr} {i : Invitation} {d : Objects}
    → v.clients ≡ w.clients
    → v.invs ≡ w.invs
    → v.games ≡ w.games
    → v.held ≡ []
    → Pair w inv i d
    → Pair v inv i d
Pair-frame {inv} {i} c v g h p = record {
  inv_ne = p.inv_ne;
  source_ne = p.source_ne;
  target_ne = p.target_ne;
  game_ne = p.game_ne;
  apart = p.apart;
  inv_live = ap (λ f. f inv) v ∙ p.inv_live;
  inv_count = p.inv_count;
  source_live = ap (λ f. f i.sender) c ∙ p.source_live;
  target_live = ap (λ f. f i.recipient) c ∙ p.target_live;
  game_live = ap (λ f. f i.game) g ∙ p.game_live;
  game_count = p.game_count;
  source_count = p.source_count;
  target_count = p.target_count;
  source_listed = p.source_listed;
  target_listed = p.target_listed;
  free = h;
}

-- The client that moves is one of the two of the invitation; both are logged in as different
-- players.
pub record Players (w : World) (i : Invitation) (d : Objects) (client : Ptr) (mine theirs : Player)
    : Type 0 where
  pub member : (client ≡ i.sender) ⊎ (client ≡ i.recipient)
  pub playing : IsPlaying w (mover i d client) mine
  pub opposing : IsPlaying w (waiter i d client) theirs
  pub apart : (mover i d client).player ≢ (waiter i d client).player

pub IsPlaying-frame :
    {w v : World} {k : Client} {a : Player}
    → v.players ≡ w.players
    → IsPlaying w k a
    → IsPlaying v k a
IsPlaying-frame {k} e h = record {
  logged_in = h.logged_in;
  player_ne = h.player_ne;
  player_live = ap (λ f. f k.player) e ∙ h.player_live;
}

module _ (env : Env) (ok : AllWritten env) (w : World) (inv : Ptr) (i : Invitation) (d : Objects)
    (p : Pair w inv i d) (client : Ptr) (mine theirs : Player)
    (q : Players w i d client mine theirs) (id : ℕ) (winner : GameRole) where
  -- The memory after the ENDED packet to the client that moved.
  abbrev pub told : World
  told = after_header env (mover i d client).fd (ended_packet id winner) w

  told-Pair : Pair told inv i d
  told-Pair = Pair-frame refl refl refl p.free p

  client_ne : client ≢ null
  client_ne = let m = q.member in ground (arith, p.source_ne, p.target_ne)

  client_live : w.clients client ≡ some (mover i d client)
  client_live = let m = q.member in ground (arith, p.apart, p.source_live, p.target_live)

  tell : client_send_packet env client (ended_packet id winner) none w ≡ done written told
  unfolding ended_packet id_packet make_packet holds
  tell =
      send_header env ok w client (mover i d client) (ended_packet id winner) client_ne client_live
        (rw p.free) refl

  pub finish_move_lem :
      (s t : Score)
      → scores (result_code winner) ≡ some (s, t)
      → finish_move env client inv i id winner (record w { held = client_lock client ∷ [] })
        ≡ done true (after_post told inv i d client mine theirs s t)
  unfolding finish_move lock unlock holds without same_mutex
  finish_move_lem s t sc = ground (
    arith,
    p.free,
    tell,
    remove_both_lem told inv i d told-Pair,
    post_after_both env ok told inv i d told-Pair client q.member mine theirs
        (IsPlaying-frame refl q.playing) (IsPlaying-frame refl q.opposing) q.apart s t
        (result_code winner),
  )
