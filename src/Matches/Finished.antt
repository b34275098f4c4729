-- ===== src/Matches/Finished.antt =====
-- The end of a match by a move, src/client.c, against the rules of the stories.
use multi_threaded_tic_tac_t.Base.{
  ℕ, ◌<◌, ◌≡◌, refl, sym, ap, ◌∙◌, subst, ◌≢◌, ◌⊎◌, inl, inr, Bool, true, false, Option, none, some,
  List,
}
use multi_threaded_tic_tac_t.Game.{Game, game_create, game_is_over, game_get_winner}
use multi_threaded_tic_tac_t.Game.Story.{
  Side, side_x, side_o, Story, has_line, is_over, winner_of, no_story,
}
use multi_threaded_tic_tac_t.Game.Refinement.{game_of, image, winner_lem}
use multi_threaded_tic_tac_t.Game.Texts.{
  role_of, attempt, attempt_taken, meant, tell_meant, attempt-tell,
}
use multi_threaded_tic_tac_t.Game.Last.{winner_by, told_winner}
use multi_threaded_tic_tac_t.Objects.{
  Ptr, null, Score, win_score, draw_score, loss_score, Player, Invitation, Client,
}
use multi_threaded_tic_tac_t.World.{Env, World, done}
use multi_threaded_tic_tac_t.Client.Sending.{AllWritten}
use multi_threaded_tic_tac_t.Matches.{client_make_move}
use multi_threaded_tic_tac_t.Matches.Removing.{Objects, Pair}
use multi_threaded_tic_tac_t.Matches.Ending.{IsPlaying}
use multi_threaded_tic_tac_t.Matches.Final.{Players, mover, waiter, IsPlaying-frame}
use multi_threaded_tic_tac_t.Matches.Results.{posted, Ended, client_make_move_over}
use multi_threaded_tic_tac_t.Requests.{client_accept_invitation}
use multi_threaded_tic_tac_t.Requests.Accepting.{Acceptable}
use multi_threaded_tic_tac_t.Matches.Whole.{
  Text, make_moves, story_of, allowed_texts, Opponents, seats, accepted_match,
}
use multi_threaded_tic_tac_t.Matches.Table.{
  Seat, source_seat, target_seat, Seats, client_at, id_at, side_at, Table, Table-Match,
}

abbrev pub objects_of : Seats → Game → Objects
objects_of t g = record {
  source = t.source;
  target = t.target;
  game = g;
  source_id = t.source_id;
  target_id = t.target_id;
}

-- The counts of the objects, and the players of the client at the seat and of the other one.
pub record Stakes (t : Seats) (w : World) (seat : Seat) (mine theirs : Player) : Type 0 where
  pub inv_ne : t.inv ≢ null
  pub inv_count : t.i.ref_count ≡ 2
  pub source_count : 1 < t.source.ref_count
  pub target_count : 1 < t.target.ref_count
  pub playing : IsPlaying w (mover t.i (objects_of t game_create) (client_at t seat)) mine
  pub opposing : IsPlaying w (waiter t.i (objects_of t game_create) (client_at t seat)) theirs
  pub different :
      (mover t.i (objects_of t game_create) (client_at t seat)).player
      ≢ (waiter t.i (objects_of t game_create) (client_at t seat)).player

-- The scores that the code posts for the client whose mark ends the game and for the other one, by
-- the side of that mark and whether it completes a line: a draw without a line, the win for X that
-- completes one, and the loss for O that does, since `player_post_result` is given the number of
-- the role as if it were the place of the winner among its arguments.
abbrev pub last_scores : Side → Bool → Score × Score
last_scores _ false = (draw_score, draw_score)
last_scores side_x true = (win_score, loss_score)
last_scores side_o true = (loss_score, win_score)

posted-winner_by :
    (side : Side) (lined : Bool) → posted (winner_by side lined) ≡ last_scores side lined
posted-winner_by side false = refl
posted-winner_by side_x true = refl
posted-winner_by side_o true = refl

member_at :
    (t : Seats) (seat : Seat) → (client_at t seat ≡ t.i.sender) ⊎ (client_at t seat ≡ t.i.recipient)
member_at t source_seat = inl refl
member_at t target_seat = inr refl

module _ (env : Env) (ok : AllWritten env) (t : Seats) (w : World) (s s2 : Story) (seat : Seat)
    (str : List ℕ) (mine theirs : Player) (h : Table t w (game_of 1 s))
    (k : Stakes t w seat mine theirs) where
  table-Pair : Pair w t.inv t.i (objects_of t (game_of 1 s))
  unfolding game_of
  table-Pair = record {
    inv_ne = k.inv_ne;
    source_ne = h.source_ne;
    target_ne = h.target_ne;
    game_ne = h.game_ne;
    apart = h.apart;
    inv_live = h.inv_live;
    inv_count = k.inv_count;
    source_live = h.source_live;
    target_live = h.target_live;
    game_live = h.game_live;
    game_count = refl;
    source_count = k.source_count;
    target_count = k.target_count;
    source_listed = h.source_knows;
    target_listed = h.target_knows;
    free = h.free;
  }

  table-Players : Players w t.i (objects_of t (game_of 1 s)) (client_at t seat) mine theirs
  table-Players = record {
    member = member_at t seat;
    playing = k.playing;
    opposing = k.opposing;
    apart = k.different;
  }

  -- Two clients that are logged in as different players play a game that stands for a story
  -- (`Table`, `Stakes`), and every write succeeds. A text that means a mark with which the rules
  -- end the game is taken, and leaves what `Ended` says, with the scores of `last_scores`.
  pub last_move :
      tell_meant s (meant (side_at t seat) str) ≡ some s2
      → is_over s2 ≡ true
      → (v : World) × (client_make_move env (client_at t seat) (id_at t seat) str w ≡ done true v)
        × Ended v t.inv t.i
            (objects_of t (game_of 1 s))
            (client_at t seat)
            mine
            theirs
            (last_scores (side_at t seat) (has_line s2.squares (side_at t seat))).0
            (last_scores (side_at t seat) (has_line s2.squares (side_at t seat))).1
  unfolding game_of game_is_over
  last_move told over =
      let (x, same, same_i, role) = Table-Match t w (game_of 1 s) seat h in
      let e : attempt (game_of 1 s) (role_of (side_at t seat)) str ≡ some (game_of 1 s2) =
        attempt-tell 1 s (side_at t seat) str ∙ ap (image 1) told in
      let (m, read, legal) =
        attempt_taken (game_of 1 s) (game_of 1 s2) (role_of (side_at t seat)) str e in
      let d = objects_of t (game_of 1 s) in
      let pair = subst (λ i. Pair w t.inv i d) (sym same_i) table-Pair in
      let players =
        subst (λ i. Players w i d (client_at t seat) mine theirs) (sym same_i) table-Players in
      let (v, run, sent, ended) =
        client_make_move_over env ok w (client_at t seat) (id_at t seat) t.inv x d pair mine theirs
          players (game_of 1 s2) over str m (rw (same, role) read) (rw same legal) in
      (
        v,
        run,
        subst (λ z. Ended v t.inv t.i d (client_at t seat) mine theirs z.0 z.1)
            (ap posted (winner_lem 1 s2 ∙ told_winner s s2 (side_at t seat) str told)
              ∙ posted-winner_by (side_at t seat) (has_line s2.squares (side_at t seat)))
            (subst
              (λ i.
                Ended v t.inv i d (client_at t seat) mine theirs
                  (posted (game_get_winner (game_of 1 s2))).0
                  (posted (game_get_winner (game_of 1 s2))).1)
              same_i ended),
      )

Stakes-frame :
    (t : Seats) (w u : World) (seat : Seat) (mine theirs : Player)
    → u.players ≡ w.players
    → Stakes t w seat mine theirs
    → Stakes t u seat mine theirs
Stakes-frame t w u seat mine theirs e k = record {
  inv_ne = k.inv_ne;
  inv_count = k.inv_count;
  source_count = k.source_count;
  target_count = k.target_count;
  playing = IsPlaying-frame e k.playing;
  opposing = IsPlaying-frame e k.opposing;
  different = k.different;
}

-- A whole match: an open invitation is accepted (`Acceptable`, `Opponents`), where the game is
-- granted and every write succeeds; the clients, which are logged in as different players
-- (`Stakes`), send any texts as moves, in any order, while the rules do not end the game; then one
-- of them sends a mark with which the rules end it. Each request returns. A move before the last
-- one succeeds exactly if its text means a mark that the rules allow, and behind them the game in
-- memory is that of the story of these marks. The last one succeeds; its side is the winner by the
-- rules if it has a line, and else nobody is. What is left is what `Ended` says, with the scores of
-- `last_scores`: draws without a line, the win for X that completes one against the loss, and the
-- loss for O that completes one against the win.
pub finished_match :
    (env : Env) (ok : AllWritten env) (w : World) (inv : Ptr) (i : Invitation)
    (source target : Client) (source_id id : ℕ) (side : Side)
    (p : Acceptable w inv i source target source_id id)
    (q : Opponents inv i source target source_id id side)
    → env.allocate w.requests ≡ true
    → (texts : List Text) (seat : Seat) (last : List ℕ) (s2 : Story) (mine theirs : Player)
    → let t = seats env ok w inv i source target source_id id side p q in
      let s = story_of t no_story texts in
      is_over s ≡ false
      → Stakes t w seat mine theirs
      → tell_meant s (meant (side_at t seat) last) ≡ some s2
      → is_over s2 ≡ true
      → (str : Option (List ℕ)) × (v u x : World) × (client_accept_invitation env i.recipient id
            none w
          ≡ done (true, str) v)
        × (make_moves env t texts v ≡ done (allowed_texts t no_story texts) u)
        × (u.games t.i.game ≡ some (game_of 1 s))
        × (winner_of s2 ≡ winner_by (side_at t seat) (has_line s2.squares (side_at t seat)))
        × (client_make_move env (client_at t seat) (id_at t seat) last u ≡ done true x)
        × Ended x inv t.i
            (objects_of t (game_of 1 s))
            (client_at t seat)
            mine
            theirs
            (last_scores (side_at t seat) (has_line s2.squares (side_at t seat))).0
            (last_scores (side_at t seat) (has_line s2.squares (side_at t seat))).1
finished_match env ok w inv i source target source_id id side p q granted texts seat last s2 mine
      theirs o k told over =
    let t = seats env ok w inv i source target source_id id side p q in
    let s = story_of t no_story texts in
    let (str, v, u, accepted, made, there, same) =
      accepted_match env ok w inv i source target source_id id side p q granted texts o in
    let (x, ended, end) =
      last_move env ok t u s s2 seat last mine theirs there
        (Stakes-frame t w u seat mine theirs same k) told over in
    (
      str,
      v,
      u,
      x,
      accepted,
      made,
      there.game_live,
      told_winner s s2 (side_at t seat) last told,
      ended,
      end,
    )
