-- ===== src/Matches/Resigning.antt =====
-- `client_resign_game` of src/client.c where every write succeeds.
use multi_threaded_tic_tac_t.Base.{
  ◌+◌, ◌≡◌, refl, ◌≢◌, ◌⊎◌, Bool, true, false, some, [], ◌∷◌, arith, ◌==◌, if◌then◌else◌,
}
use multi_threaded_tic_tac_t.Game.{
  GameRole, null_role, first_player_role, second_player_role, Game, game_get_winner, opponent_role,
}
use multi_threaded_tic_tac_t.Game
use multi_threaded_tic_tac_t.Game.Story.{other_player}
use multi_threaded_tic_tac_t.Objects.{
  Ptr, null, Score, win_score, loss_score, Player, Invitation, inv_accepted_state, inv_closed_state,
}
use multi_threaded_tic_tac_t.Protocol.{htons, ended_pkt, resigned_pkt}
use multi_threaded_tic_tac_t.World.{
  Env, World, done, holds, without, same_mutex, lock, unlock, client_lock, game_lock, inv_lock,
  update, load_client, load_inv, load_game,
}
use multi_threaded_tic_tac_t.Player.{scores}
use multi_threaded_tic_tac_t.GameObject
use multi_threaded_tic_tac_t.Client.{make_packet}
use multi_threaded_tic_tac_t.Client.Sending.{
  AllWritten, packet_of, stamped, after_header, send_header,
}
use multi_threaded_tic_tac_t.Invitation.{inv_close, resign_in_progress}
use multi_threaded_tic_tac_t.Requests.{id_packet, role_code}
use multi_threaded_tic_tac_t.Matches.{
  opponent_in, role_in, ended_packet, post_result, may_not_resign, send_resigned, finish_resigned,
  client_resign_game,
}
use multi_threaded_tic_tac_t.Matches.Moving.{Match}
use multi_threaded_tic_tac_t.Matches.Removing.{Objects, Pair, after_both, remove_both_lem}
use multi_threaded_tic_tac_t.Matches.Ending.{IsPlaying, rated_first, rated_second, post_result_lem}
use multi_threaded_tic_tac_t.Matches.Results.{released, Ended}

-- The game after the resignation of a role.
abbrev pub resigned_game : Game → GameRole → Game
resigned_game g role = record g { terminated = true; winner = opponent_role role }

-- The scores for the source and the target: the one that resigned lost.
abbrev pub resigned_scores : Bool → Score × Score
resigned_scores by_source = if by_source then (loss_score, win_score) else (win_score, loss_score)

other_player_lem : (role : GameRole) → other_player role ≡ opponent_role role
other_player_lem null_role = refl
other_player_lem first_player_role = refl
other_player_lem second_player_role = refl

resign_lem :
    (w : World) (a : Ptr) (g : Game) (role : GameRole)
    → a ≢ null
    → w.games a ≡ some g
    → g.terminated ≡ false
    → holds (game_lock a) w.held ≡ false
    → GameObject.game_resign a role w
      ≡ done true (record w { games = update w.games a (some (resigned_game g role)) })
unfolding GameObject.game_resign load_game Game.game_resign lock unlock without same_mutex
resign_lem w a g role n gl run f = ground arith

close_step :
    (w : World) (i : Invitation) (g : Game) (role : GameRole)
    → i.game ≢ null
    → w.games i.game ≡ some g
    → i.state ≡ inv_accepted_state
    → g.terminated ≡ false
    → holds (game_lock i.game) w.held ≡ false
    → resign_in_progress i role w
      ≡ done tt (record w { games = update w.games i.game (some (resigned_game g role)) })
unfolding resign_in_progress
close_step w i g role gn gl st run f = ground (arith, resign_lem w i.game g role gn gl run f)

close_lem :
    (w : World) (inv : Ptr) (i : Invitation) (g : Game) (role : GameRole)
    → inv ≢ null
    → w.invs inv ≡ some i
    → i.game ≢ null
    → w.games i.game ≡ some g
    → i.state ≡ inv_accepted_state
    → g.terminated ≡ false
    → role ≢ null_role
    → holds (inv_lock inv) w.held ≡ false
    → holds (game_lock i.game) w.held ≡ false
    → inv_close inv role w
      ≡ done true (record w {
        games = update w.games i.game (some (resigned_game g role));
        invs = update w.invs inv (some (record i { state = inv_closed_state }));
      })
unfolding inv_close load_inv lock unlock holds without same_mutex
close_lem w inv i g role n il gn gl st run rn fi fg =
    ground (arith, close_step (record w { held = inv_lock inv ∷ w.held }) i g role gn gl st run fg)

-- The client that resigns is one of the two of a running game; both are logged in as different
-- players.
pub record Resigns (w : World) (client inv : Ptr) (i : Invitation) (d : Objects) (sp tp : Player)
    : Type 0 where
  pub member : (client ≡ i.sender) ⊎ (client ≡ i.recipient)
  pub accepted : i.state ≡ inv_accepted_state
  pub running : d.game.terminated ≡ false
  pub role_ne : role_in i client ≢ null_role
  pub source_plays : IsPlaying w d.source sp
  pub target_plays : IsPlaying w d.target tp
  pub players_apart : d.source.player ≢ d.target.player

module _ (env : Env) (ok : AllWritten env) (w : World) (client id inv : Ptr)
    (t : Match w client id inv) (d : Objects) (p : Pair w inv t.i d) (sp tp : Player)
    (q : Resigns w client inv t.i d sp tp) where
  abbrev lost : Game
  lost = resigned_game d.game (role_in t.i client)

  abbrev winner : GameRole
  winner = opponent_role (role_in t.i client)

  abbrev closed : Invitation
  closed = record t.i { state = inv_closed_state }

  abbrev after : Objects
  after = record d { game = lost }

  -- The memory with the game resigned and the invitation closed.
  abbrev resigned : World
  resigned = record w {
    games = update w.games t.i.game (some lost);
    invs = update w.invs inv (some closed);
  }

  -- The memory after the three packets.
  abbrev notified : World
  notified = after_header env t.self.fd (ended_packet id winner) (
      after_header env t.other.fd (ended_packet t.other_id winner)
        (after_header env t.other.fd (id_packet resigned_pkt t.other_id) resigned))

  notified-Pair : Pair notified inv closed after
  notified-Pair = record {
    inv_ne = p.inv_ne;
    source_ne = p.source_ne;
    target_ne = p.target_ne;
    game_ne = p.game_ne;
    apart = p.apart;
    inv_live = ground arith;
    inv_count = p.inv_count;
    source_live = p.source_live;
    target_live = p.target_live;
    game_live = ground arith;
    game_count = p.game_count;
    source_count = p.source_count;
    target_count = p.target_count;
    source_listed = p.source_listed;
    target_listed = p.target_listed;
    free = p.free;
  }

  client_ne : client ≢ null
  client_ne = let m = q.member in ground (arith, p.source_ne, p.target_ne)

  unheld : (c : Ptr) → holds (client_lock c) w.held ≡ false
  unfolding holds
  unheld c = rw p.free

  notify :
      send_resigned env client (opponent_in t.i client) t.other_id id winner resigned
      ≡ done true notified
  unfolding send_resigned ended_packet id_packet make_packet
  notify = ground (
    arith,
    send_header env ok resigned (opponent_in t.i client) t.other (id_packet resigned_pkt t.other_id)
        t.opponent_ne t.other_live (unheld (opponent_in t.i client)) refl,
    send_header env ok (after_header env t.other.fd (id_packet resigned_pkt t.other_id) resigned)
        (opponent_in t.i client) t.other (ended_packet t.other_id winner) t.opponent_ne t.other_live
        (unheld (opponent_in t.i client)) refl,
    send_header env ok
        (after_header env t.other.fd (ended_packet t.other_id winner)
          (after_header env t.other.fd (id_packet resigned_pkt t.other_id) resigned))
        client t.self (ended_packet id winner) client_ne t.self_live (unheld client) refl,
  )

  abbrev by_source : Bool
  by_source = client == t.i.sender

  abbrev given : Score × Score
  given = resigned_scores by_source

  abbrev removed : World
  removed = after_both notified inv closed after

  -- The memory at the end.
  abbrev pub ended : World
  ended = record removed {
    players =
        update (update w.players d.source.player (some (rated_first sp tp given.0))) d.target.player
          (some (rated_second sp tp given.1));
  }

  scores-given : scores (if by_source then 2 else 1) ≡ some (given.0, given.1)
  scores-given = ground arith

  post :
      post_result t.i.sender t.i.recipient
        (if by_source then 2 else 1)
        (record removed { held = client_lock client ∷ [] })
      ≡ done tt (record ended { held = client_lock client ∷ [] })
  unfolding holds same_mutex
  post =
      post_result_lem (record removed { held = client_lock client ∷ [] }) t.i.sender t.i.recipient
        (released inv d.source) (released inv d.target) sp tp given.0 given.1
        (if by_source then 2 else 1) p.source_ne p.target_ne (ground (arith, p.apart))
        (ground arith)
        (record {
          logged_in = q.source_plays.logged_in;
          player_ne = q.source_plays.player_ne;
          player_live = q.source_plays.player_live;
        })
        (record {
          logged_in = q.target_plays.logged_in;
          player_ne = q.target_plays.player_ne;
          player_live = q.target_plays.player_live;
        })
        q.players_apart scores-given refl refl

  finish : finish_resigned env client inv t.i t.other_id id resigned ≡ done true ended
  unfolding finish_resigned GameObject.game_get_winner load_game game_get_winner lock unlock holds
      without same_mutex
  finish = ground (
    arith,
    p.free,
    p.game_ne,
    notify,
    remove_both_lem notified inv closed after notified-Pair,
    post,
  )

  apart_from : (t.i.sender == client) ≡ true ⊎ (t.i.recipient == client) ≡ true
  apart_from = let m = q.member in ground arith

  resign_run : client_resign_game env client id w ≡ done true ended
  unfolding client_resign_game load_client load_inv lock unlock holds without same_mutex
      may_not_resign
  resign_run =
      let w1 : World = record w { held = client_lock client ∷ [] } in
      let m = apart_from in
      ground (
        arith,
        close_lem w1 inv t.i d.game (role_in t.i client) p.inv_ne p.inv_live p.game_ne p.game_live
            q.accepted q.running q.role_ne refl refl,
        finish,
      )

  resigned-Ended : Ended ended inv t.i after t.i.sender sp tp given.0 given.1
  resigned-Ended = record {
    inv_freed = ground arith;
    game_freed = ground arith;
    source_left = ground (arith, p.apart);
    target_left = ground arith;
    mine_rated = ground (arith, q.players_apart);
    theirs_rated = ground arith;
    unlocked = p.free;
  }

  -- Two clients that are logged in as different players know an accepted invitation with a running
  -- game (`Match`, `Pair`, `Resigns`). One of them resigns, where every write succeeds: the
  -- opponent gets RESIGNED and both get ENDED, each with the receiver's own id and the other player
  -- as the winner, and the memory is as `Ended` says, with the loss for the one that resigned and
  -- the win for the other.
  pub client_resign_game_lem :
      (v : World) × (client_resign_game env client id w ≡ done true v)
      × (v.sent
          ≡ (
            t.self.fd,
            stamped env
                (w.writes + 1 + 1)
                (packet_of ended_pkt id (role_code (other_player (role_in t.i client))) (htons 0)),
          )
            ∷ (
              t.other.fd,
              stamped env (w.writes + 1) (
                  packet_of ended_pkt t.other_id
                    (role_code (other_player (role_in t.i client)))
                    (htons 0)),
            )
            ∷ (t.other.fd, stamped env w.writes (packet_of resigned_pkt t.other_id 0 (htons 0)))
            ∷ w.sent)
      × Ended v inv t.i after t.i.sender sp tp given.0 given.1
  unfolding ended_packet id_packet make_packet
  client_resign_game_lem =
      (ended, resign_run, rw (other_player_lem (role_in t.i client)) refl, resigned-Ended)
