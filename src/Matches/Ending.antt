-- ===== src/Matches/Ending.antt =====
-- The end of a game in src/client.c: the results that are posted, and a move that ends the game.
use multi_threaded_tic_tac_t.Base.{ℕ, ◌≡◌, ◌≢◌, true, false, some, arith}
use multi_threaded_tic_tac_t.Objects.{
  Ptr, null, Score, Rating, plus_first, plus_second, Player, Client,
}
use multi_threaded_tic_tac_t.World.{
  World, done, holds, without, same_mutex, lock, unlock, player_lock, update, load_client,
  load_player,
}
use multi_threaded_tic_tac_t.Player.{scores, add_rating, post_scores, player_post_result}
use multi_threaded_tic_tac_t.Client.{client_get_player}
use multi_threaded_tic_tac_t.Matches.{post_result}

-- A client that is logged in as a player.
pub record IsPlaying (w : World) (k : Client) (p : Player) : Type 0 where
  pub logged_in : k.logged_in ≡ true
  pub player_ne : k.player ≢ null
  pub player_live : w.players k.player ≡ some p

abbrev pub rated_first : Player → Player → Score → Player
rated_first p q s = record p { rating = plus_first p.rating p.rating q.rating s }

abbrev pub rated_second : Player → Player → Score → Player
rated_second p q s = record q { rating = plus_second q.rating p.rating q.rating s }

add_rating_lem :
    (w : World) (a : Ptr) (p : Player) (f : Rating → Rating)
    → w.players a ≡ some p
    → holds (player_lock a) w.held ≡ false
    → add_rating a f w
      ≡ done tt
          (record w { players = update w.players a (some (record p { rating = f p.rating })) })
unfolding add_rating load_player lock unlock without same_mutex
add_rating_lem w a p f live free = ground arith

pub post_scores_lem :
    (w : World) (a b : Ptr) (p q : Player) (s t : Score)
    → a ≢ b
    → w.players a ≡ some p
    → w.players b ≡ some q
    → holds (player_lock a) w.held ≡ false
    → holds (player_lock b) w.held ≡ false
    → post_scores a b (s, t) w
      ≡ done tt (record w {
        players =
            update (update w.players a (some (rated_first p q s))) b (some (rated_second p q t));
      })
unfolding post_scores load_player
post_scores_lem w a b p q s t apart pl ql fa fb =
    let w1 : World = record w { players = update w.players a (some (rated_first p q s)) } in
    ground (
      arith,
      add_rating_lem w a p (λ r. plus_first r p.rating q.rating s),
      add_rating_lem w1 b q (λ r. plus_second r p.rating q.rating t),
    )

-- The result of a game is posted for the players of two clients that are logged in.
pub post_result_lem :
    (w : World) (c d : Ptr) (k l : Client) (p q : Player) (s t : Score) (result : ℕ)
    → c ≢ null
    → d ≢ null
    → w.clients c ≡ some k
    → w.clients d ≡ some l
    → IsPlaying w k p
    → IsPlaying w l q
    → k.player ≢ l.player
    → scores result ≡ some (s, t)
    → holds (player_lock k.player) w.held ≡ false
    → holds (player_lock l.player) w.held ≡ false
    → post_result c d result w
      ≡ done tt (record w {
        players =
            update
              (update w.players k.player (some (rated_first p q s)))
              l.player
              (some (rated_second p q t));
      })
unfolding post_result client_get_player load_client player_post_result
post_result_lem w c d k l p q s t result cn dn kl ll kp lp apart sc fa fb =
    ground (arith, post_scores_lem w k.player l.player p q s t)
