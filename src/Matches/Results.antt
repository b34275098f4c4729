-- ===== src/Matches/Results.antt =====
-- What a move that ends the game leaves behind, src/client.c: packets, lists and ratings.
use multi_threaded_tic_tac_t.Base.{
  ℕ, ◌+◌, ◌-◌, ◌≡◌, refl, true, false, none, some, List, [], ◌∷◌, arith, length,
}
use multi_threaded_tic_tac_t.Game.{
  GameRole, null_role, first_player_role, second_player_role, Game, GameMove, win, record_win,
  count_turn, place, game_is_over, game_get_winner, game_parse_move, game_unparse_state,
}
use multi_threaded_tic_tac_t.Game
use multi_threaded_tic_tac_t.Game.Rules.{game_apply_move_accepted}
use multi_threaded_tic_tac_t.Game.Display.{length-game_unparse_state}
use multi_threaded_tic_tac_t.Objects.{
  Ptr, Score, win_score, draw_score, loss_score, Player, Invitation, Client,
}
use multi_threaded_tic_tac_t.Protocol.{htons, ended_pkt}
use multi_threaded_tic_tac_t.World.{
  Env, World, written, done, holds, without, same_mutex, lock, client_lock, update, load_client,
  load_inv, load_game,
}
use multi_threaded_tic_tac_t.Player.{scores}
use multi_threaded_tic_tac_t.GameObject
use multi_threaded_tic_tac_t.Client.{client_send_packet, make_packet}
use multi_threaded_tic_tac_t.Client.Sending.{
  AllWritten, packet_of, stamped, after_header, after_packet, send_packet, send_header,
}
use multi_threaded_tic_tac_t.Requests.{id_packet, role_code}
use multi_threaded_tic_tac_t.Matches.{
  opponent_in, role_in, result_code, ended_packet, end_move, announce_move, client_make_move,
}
use multi_threaded_tic_tac_t.Matches.Moving.{Match, moved_header, try_move_legal}
use multi_threaded_tic_tac_t.ClientList.Update.{leaves}
use multi_threaded_tic_tac_t.Matches.Removing.{Objects, Pair}
use multi_threaded_tic_tac_t.Matches.Ending.{rated_first, rated_second}
use multi_threaded_tic_tac_t.Matches.Final.{
  mover, waiter, Players, IsPlaying-frame, after_post, finish_move_lem,
}

-- The scores that are posted for the client that moved and for its opponent.
abbrev pub posted : GameRole → Score × Score
posted null_role = (draw_score, draw_score)
posted first_player_role = (win_score, loss_score)
posted second_player_role = (loss_score, win_score)

scores-posted : (r : GameRole) → scores (result_code r) ≡ some ((posted r).0, (posted r).1)
unfolding result_code
scores-posted null_role = refl
scores-posted first_player_role = refl
scores-posted second_player_role = refl

-- A client after its list gave up the invitation, and the invitation its reference to it.
abbrev pub released : Ptr → Client → Client
released inv k = record (leaves k inv) { ref_count = k.ref_count - 1 }

-- What is left of an invitation whose game has ended: it is freed with its game, both clients have
-- dropped it and lost the reference that it held, both players are rated with the scores `s`
-- and `t`, and no mutex is locked.
pub record Ended (v : World) (inv : Ptr) (i : Invitation) (d : Objects) (client : Ptr)
    (mine theirs : Player) (s t : Score) : Type 0 where
  pub inv_freed : v.invs inv ≡ none
  pub game_freed : v.games i.game ≡ none
  pub source_left : v.clients i.sender ≡ some (released inv d.source)
  pub target_left : v.clients i.recipient ≡ some (released inv d.target)
  pub mine_rated : v.players (mover i d client).player ≡ some (rated_first mine theirs s)
  pub theirs_rated : v.players (waiter i d client).player ≡ some (rated_second mine theirs t)
  pub unlocked : v.held ≡ []

same_count :
    (g h : Game) (m : GameMove) → Game.game_apply_move g m ≡ some h → h.ref_count ≡ g.ref_count
unfolding record_win count_turn place
same_count g h m e = let (l, r) = game_apply_move_accepted g h m e in rw r (ground arith)

picture_size :
    (id : ℕ) (h : Game) → (moved_header id h).size ≡ htons (length (game_unparse_state h))
unfolding make_packet
picture_size id h = rw ((length-game_unparse_state h).0)

module _ (env : Env) (ok : AllWritten env) (w : World) (client id inv : Ptr)
    (t : Match w client id inv) (d : Objects) (p : Pair w inv t.i d) (mine theirs : Player)
    (q : Players w t.i d client mine theirs) (h : Game) (over : game_is_over h ≡ true) where
  abbrev winner : GameRole
  winner = game_get_winner h

  abbrev after : Objects
  after = record d { game = h }

  -- The memory with the move made, and the MOVED and the ENDED packet sent to the opponent.
  abbrev shown : World
  shown =
      after_packet env t.other.fd (moved_header t.other_id h) (game_unparse_state h)
        (record w { games = update w.games t.i.game (some h) })

  abbrev told_both : World
  told_both = after_header env t.other.fd (ended_packet t.other_id winner) shown

  abbrev closing : World → World
  closing v = record v { held = client_lock client ∷ [] }

  opponent_free : holds (client_lock (opponent_in t.i client)) (client_lock client ∷ []) ≡ false
  unfolding holds same_mutex
  opponent_free = ground (arith, t.opponent_other)

  moved_sent :
      client_send_packet env
        (opponent_in t.i client)
        (moved_header t.other_id h)
        (some (game_unparse_state h))
        (closing (record w { games = update w.games t.i.game (some h) }))
      ≡ done written (closing shown)
  moved_sent =
      send_packet env ok (closing (record w { games = update w.games t.i.game (some h) }))
        (opponent_in t.i client) t.other (moved_header t.other_id h) t.opponent_ne t.other_live
        opponent_free (game_unparse_state h) (picture_size t.other_id h)
        (omega (arith, length-game_unparse_state h)) (omega (arith, length-game_unparse_state h))

  ended_sent :
      client_send_packet env
        (opponent_in t.i client)
        (ended_packet t.other_id winner)
        none
        (closing shown)
      ≡ done written (closing told_both)
  unfolding ended_packet id_packet make_packet
  ended_sent =
      send_header env ok (closing shown) (opponent_in t.i client) t.other
        (ended_packet t.other_id winner) t.opponent_ne t.other_live opponent_free refl

  shown-Pair : h.ref_count ≡ 1 → Pair told_both inv t.i after
  shown-Pair count = record {
    inv_ne = p.inv_ne;
    source_ne = p.source_ne;
    target_ne = p.target_ne;
    game_ne = p.game_ne;
    apart = p.apart;
    inv_live = p.inv_live;
    inv_count = p.inv_count;
    source_live = p.source_live;
    target_live = p.target_live;
    game_live = ground arith;
    game_count = count;
    source_count = p.source_count;
    target_count = p.target_count;
    source_listed = p.source_listed;
    target_listed = p.target_listed;
    free = p.free;
  }

  shown-Players : Players told_both t.i after client mine theirs
  shown-Players = record {
    member = q.member;
    playing = IsPlaying-frame refl q.playing;
    opposing = IsPlaying-frame refl q.opposing;
    apart = q.apart;
  }

  -- The memory at the end.
  abbrev pub ended : World
  ended =
      after_post (after_header env (mover t.i d client).fd (ended_packet id winner) told_both) inv
        t.i after client mine theirs (posted winner).0 (posted winner).1

  announce_over :
      h.ref_count ≡ 1
      → announce_move env client inv t.i t.other_id id
          (closing (record w { games = update w.games t.i.game (some h) }))
        ≡ done true ended
  unfolding announce_move end_move load_game GameObject.game_get_winner
  announce_over count = ground (
    arith,
    p.game_ne,
    moved_sent,
    ended_sent,
    finish_move_lem env ok told_both inv t.i after (shown-Pair count) client mine theirs
        shown-Players id winner (posted winner).0 (posted winner).1 (scores-posted winner),
  )

  pub make_move_over :
      (move : List ℕ) (m : GameMove)
      → game_parse_move t.game (role_in t.i client) move ≡ some m
      → Game.game_apply_move t.game m ≡ some h
      → client_make_move env client id move w ≡ done true ended
  unfolding client_make_move load_client load_inv lock holds without same_mutex
  make_move_over move m e a =
      let w1 : World = record w { held = client_lock client ∷ [] } in
      let count : h.ref_count ≡ 1 =
        ground (arith, same_count t.game h m a, t.game_live, p.game_live, p.game_count) in
      ground (
        arith,
        try_move_legal t.i client move w1 t.game t.game_ne t.game_live refl m h e a,
        announce_over count,
      )

  ended-Ended : Ended ended inv t.i d client mine theirs (posted winner).0 (posted winner).1
  ended-Ended = record {
    inv_freed = ground arith;
    game_freed = ground arith;
    source_left = ground (arith, p.apart);
    target_left = ground arith;
    mine_rated = ground (arith, q.apart);
    theirs_rated = ground arith;
    unlocked = p.free;
  }

  -- Two clients that are logged in as different players know an invitation with a game (`Match`,
  -- `Pair`, `Players`). A legal move that ends the game, where every write succeeds, sends MOVED
  -- with the last picture and ENDED with the winner to the opponent and ENDED to the client that
  -- moved, each with the receiver's own id, and leaves what `Ended` says, with the scores of
  -- `posted`.
  pub client_make_move_over :
      (move : List ℕ) (m : GameMove)
      → game_parse_move t.game (role_in t.i client) move ≡ some m
      → Game.game_apply_move t.game m ≡ some h
      → (v : World) × (client_make_move env client id move w ≡ done true v)
        × (v.sent
            ≡ (
              (mover t.i d client).fd,
              stamped env
                  (w.writes + 1 + 1 + 1)
                  (packet_of ended_pkt id (role_code winner) (htons 0)),
            )
              ∷ (
                t.other.fd,
                stamped env
                    (w.writes + 1 + 1)
                    (packet_of ended_pkt t.other_id (role_code winner) (htons 0)),
              )
              ∷ (t.other.fd, game_unparse_state h)
              ∷ (t.other.fd, stamped env w.writes (moved_header t.other_id h))
              ∷ w.sent)
        × Ended v inv t.i d client mine theirs (posted winner).0 (posted winner).1
  unfolding ended_packet id_packet make_packet
  client_make_move_over move m e a = (ended, make_move_over move m e a, refl, ended-Ended)

line_wins :
    (g h : Game) (m : GameMove)
    → Game.game_apply_move g m ≡ some h
    → win h.board 2 ≡ true
    → (game_is_over h ≡ true) × (game_get_winner h ≡ second_player_role)
unfolding record_win count_turn place game_is_over game_get_winner
line_wins g h m e l = let (legal, r) = game_apply_move_accepted g h m e in ground arith

-- Where the second player completes a line, `client_make_move` rates that player as the loser and
-- the opponent as the winner: `result` numbers the winner by role, and
-- `player_post_result` reads it as the place of the winner among its arguments, of which the
-- client that moved is the first.
pub second_player_win_rated_as_loss :
    (env : Env)
    → AllWritten env
    → (w : World) (client id inv : Ptr) (t : Match w client id inv) (d : Objects) → Pair w inv t.i d
    → (mine theirs : Player) → Players w t.i d client mine theirs
    → (move : List ℕ) (m : GameMove) (h : Game) → role_in t.i client ≡ second_player_role
    → game_parse_move t.game (role_in t.i client) move ≡ some m
    → Game.game_apply_move t.game m ≡ some h
    → win h.board 2 ≡ true
    → (v : World) × (client_make_move env client id move w ≡ done true v)
      × (v.players (mover t.i d client).player ≡ some (rated_first mine theirs loss_score))
      × (v.players (waiter t.i d client).player ≡ some (rated_second mine theirs win_score))
second_player_win_rated_as_loss env ok w client id inv t d p mine theirs q move m h role e a l =
    let (over, second) = line_wins t.game h m a l in
    let (v, run, sent, end) =
      client_make_move_over env ok w client id inv t d p mine theirs q h over move m e a in
    (v, run, rw second at end.mine_rated, rw second at end.theirs_rated)
