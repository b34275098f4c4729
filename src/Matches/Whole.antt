-- ===== src/Matches/Whole.antt =====
-- Whole matches: the requests on moves of src/client.c that two clients send for one game, against
-- the rules of the stories.
use multi_threaded_tic_tac_t.Base.{
  ℕ, ◌≡◌, refl, sym, ap, ◌∙◌, subst, inl, inr, Bool, true, false, Option, none, some, List, [], ◌∷◌,
  arith, ◌≢◌, Bool-cases,
}
use multi_threaded_tic_tac_t.Game.{game_create, game_is_over}
use multi_threaded_tic_tac_t.Game.Story.{
  Side, other_side, Story, Action, mark, resign, tell, is_over, or_else, is_some, no_story,
}
use multi_threaded_tic_tac_t.Game.Refinement.{start_lem, game_of, image, or_else-image}
use multi_threaded_tic_tac_t.Game.Texts.{role_of, attempt, meant, tell_meant, attempt-tell}
use multi_threaded_tic_tac_t.World.{Env, World, done, M, pure, ◌>>=◌}
use multi_threaded_tic_tac_t.Objects.{Ptr, null, Invitation, Client}
use multi_threaded_tic_tac_t.ClientList.{find_by_id, find_by_invitation}
use multi_threaded_tic_tac_t.Requests.{client_accept_invitation}
use multi_threaded_tic_tac_t.Requests.Accepting.{Acceptable, begun, client_accept_invitation_keeps}
use multi_threaded_tic_tac_t.Client.Sending.{AllWritten}
use multi_threaded_tic_tac_t.Matches.{client_make_move}
use multi_threaded_tic_tac_t.Matches.Table.{
  Seat, Seats, client_at, id_at, side_at, Table, make_move_step,
}

abbrev pub Text : Type 0
Text = Seat × List ℕ

-- The requests of both clients in the order in which they come, with their answers.
unfoldable pub make_moves : Env → Seats → List Text → M (List Bool)
make_moves env t [] = pure []
make_moves env t ((seat, str) ∷ rest) = do
  taken ← client_make_move env (client_at t seat) (id_at t seat) str
  others ← make_moves env t rest
  pure (taken ∷ others)

-- The story of the texts; a text that means no mark that the rules allow is left out.
unfoldable pub story_of : Seats → Story → List Text → Story
story_of t s [] = s
story_of t s ((seat, str) ∷ rest) =
    story_of t (or_else (tell_meant s (meant (side_at t seat) str)) s) rest

-- Which of the texts mean a mark that the rules allow, where it comes.
unfoldable pub allowed_texts : Seats → Story → List Text → List Bool
allowed_texts t s [] = []
allowed_texts t s ((seat, str) ∷ rest) =
    is_some (tell_meant s (meant (side_at t seat) str))
    ∷ allowed_texts t (or_else (tell_meant s (meant (side_at t seat) str)) s) rest

over_told : (s : Story) (a : Option Action) → is_over s ≡ true → tell_meant s a ≡ none
unfolding tell
over_told s none o = refl
over_told s (some (mark side q)) o = ground (arith, o)
over_told s (some (resign role)) o = rw o refl

story_stays :
    (t : Seats) (s : Story) (texts : List Text) → is_over s ≡ true → story_of t s texts ≡ s
unfolding story_of
story_stays t s [] o = refl
story_stays t s ((seat, str) ∷ rest) o =
    rw (over_told s (meant (side_at t seat) str) o) (story_stays t s rest o)

not_over_before :
    (t : Seats) (s : Story) (texts : List Text)
    → is_over (story_of t s texts) ≡ false
    → is_over s ≡ false
not_over_before t s texts e = elim (Bool-cases (is_over s)) [
  | inl over ↦ absurd (ground (arith, story_stays t s texts over))
  | inr running ↦ running
]

is_some-image : (refs : ℕ) (o : Option Story) → is_some (image refs o) ≡ is_some o
is_some-image refs none = refl
is_some-image refs (some s) = refl

-- Two clients play a game that stands for a story (`Table`), and every write succeeds. Whatever
-- texts they send as moves, in whatever order, while the rules do not end the game: each request
-- returns, with success exactly if its text means a mark that the rules allow, the game in memory
-- is that of the story of these marks, and the clients and the players are as they were.
pub make_moves-story_of :
    (env : Env)
    → AllWritten env
    → (t : Seats) (refs : ℕ) (s : Story) (texts : List Text) (w : World)
    → Table t w (game_of refs s)
    → is_over (story_of t s texts) ≡ false
    → (v : World) × (make_moves env t texts w ≡ done (allowed_texts t s texts) v)
      × Table t v (game_of refs (story_of t s texts))
      × (v.players ≡ w.players)
unfolding make_moves story_of allowed_texts game_is_over game_of
make_moves-story_of env ok t refs s [] w h o = (w, refl, h, refl)
make_moves-story_of env ok t refs s ((seat, str) ∷ rest) w h o =
    let side = side_at t seat in
    let s2 = or_else (tell_meant s (meant side str)) s in
    let same : or_else (attempt (game_of refs s) (role_of side) str) (game_of refs s)
        ≡ game_of refs s2 =
      ap (λ x. or_else x (game_of refs s)) (attempt-tell refs s side str)
      ∙ or_else-image refs s (tell_meant s (meant side str)) in
    let answer : is_some (attempt (game_of refs s) (role_of side) str)
        ≡ is_some (tell_meant s (meant side str)) =
      ap is_some (attempt-tell refs s side str)
      ∙ is_some-image refs (tell_meant s (meant side str)) in
    let running = not_over_before t s2 rest o in
    let (u, one, there, alike) =
      make_move_step env ok t w (game_of refs s) seat str h
        (subst (λ g. game_is_over g ≡ false) (sym same) running) in
    let (v, others, behind, same_players) =
      make_moves-story_of env ok t refs s2 rest u (subst (λ g. Table t u g) same there) o in
    (v, rw (one, others, answer) refl, behind, same_players ∙ alike)

-- What a target and a source of an invitation know of it before the game.
pub record Opponents (inv : Ptr) (i : Invitation) (source target : Client) (source_id id : ℕ)
    (side : Side) : Type 0 where
  pub target_ne : i.recipient ≢ null
  pub source_finds : find_by_id source.invitations source_id ≡ some inv
  pub target_knows : find_by_invitation target.invitations inv ≡ some id
  pub source_role : i.source_role ≡ role_of side
  pub target_role : i.target_role ≡ role_of (other_side side)

module _ (env : Env) (ok : AllWritten env) (w : World) (inv : Ptr) (i : Invitation)
    (source target : Client) (source_id id : ℕ) (side : Side)
    (p : Acceptable w inv i source target source_id id)
    (q : Opponents inv i source target source_id id side) where
  abbrev pub seats : Seats
  seats = record {
    inv = inv;
    i = begun env w inv i source target source_id id p;
    source = source;
    target = target;
    source_id = source_id;
    target_id = id;
    source_side = side;
  }

  begun-Table :
      (v : World)
      → v.invs inv ≡ some (seats.i)
      → v.games w.fresh ≡ some game_create
      → v.clients ≡ w.clients
      → v.held ≡ []
      → Table seats v game_create
  begun-Table v ei eg ec eh = record {
    source_ne = p.source_ne;
    target_ne = q.target_ne;
    apart = p.apart;
    inv_live = ei;
    source_live = rw ec p.source_live;
    target_live = rw ec p.target_live;
    source_listed = q.source_finds;
    source_knows = p.source_listed;
    target_listed = p.target_listed;
    target_knows = q.target_knows;
    source_role = q.source_role;
    target_role = q.target_role;
    game_ne = p.fresh_ne;
    game_live = eg;
    free = eh;
  }

  -- An open invitation is accepted (`Acceptable`, `Opponents`), where the game is granted and every
  -- write succeeds; then the two clients send any texts as moves, in any order, while the rules do
  -- not end the game. Each request returns, a move with success exactly if its text means a mark
  -- that the rules allow, and the game in memory is that of the story of these marks, told from the
  -- start.
  pub accepted_match :
      env.allocate w.requests ≡ true
      → (texts : List Text) → is_over (story_of seats no_story texts) ≡ false
      → (str : Option (List ℕ)) × (v u : World) × (client_accept_invitation env i.recipient id none
            w
          ≡ done (true, str) v)
        × (make_moves env seats texts v ≡ done (allowed_texts seats no_story texts) u)
        × Table seats u (game_of 1 (story_of seats no_story texts))
        × (u.players ≡ w.players)
  accepted_match granted texts o =
      let (str, v, accepted, ei, eg, ec, ep, eh) =
        client_accept_invitation_keeps env w inv i source target source_id id p none ok granted in
      let start_table = subst (λ g. Table seats v g) start_lem (begun-Table v ei eg ec eh) in
      let (u, made, behind, same) =
        make_moves-story_of env ok seats 1 no_story texts v start_table o in
      (str, v, u, accepted, made, behind, same ∙ ep)
