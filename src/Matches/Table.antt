-- ===== src/Matches/Table.antt =====
-- Two clients of src/client.c that play a game with each other, whoever of them sends a move.
use multi_threaded_tic_tac_t.Base.{
  ℕ, ◌≡◌, refl, sym, ◌≢◌, inl, inr, Bool, true, false, Option, none, some, List, [], arith,
  Option-cases, ==_self, ◌==◌, ap,
}
use multi_threaded_tic_tac_t.Game.{Game, game_is_over}
use multi_threaded_tic_tac_t.Game.Story.{Side, other_side, or_else, is_some}
use multi_threaded_tic_tac_t.Game.Texts.{role_of, attempt, attempt_taken, attempt_refused}
use multi_threaded_tic_tac_t.Objects.{Ptr, null, Invitation, Client}
use multi_threaded_tic_tac_t.World.{Env, World, Outcome, done}
use multi_threaded_tic_tac_t.Client.Sending.{AllWritten}
use multi_threaded_tic_tac_t.ClientList.{find_by_id, find_by_invitation}
use multi_threaded_tic_tac_t.Matches.{role_in, client_make_move}
use multi_threaded_tic_tac_t.Matches.Moving.{
  Match, after_move, client_make_move_running, client_make_move-Refused,
}

pub data Seat : Type 0 where
  source_seat target_seat : Seat

-- Who plays: the invitation, its clients with their ids for it, and the side of the source.
pub record Seats : Type 0 where
  pub inv : Ptr
  pub i : Invitation
  pub source : Client
  pub target : Client
  pub source_id : ℕ
  pub target_id : ℕ
  pub source_side : Side

module _ (t : Seats) where
  abbrev pub client_at : Seat → Ptr
  client_at source_seat = t.i.sender
  client_at target_seat = t.i.recipient

  abbrev pub id_at : Seat → ℕ
  id_at source_seat = t.source_id
  id_at target_seat = t.target_id

  abbrev pub side_at : Seat → Side
  side_at source_seat = t.source_side
  side_at target_seat = other_side t.source_side

-- The clients play the game `g`: both know the invitation, under ids and back, and no mutex is
-- locked.
pub record Table (t : Seats) (w : World) (g : Game) : Type 0 where
  pub source_ne : t.i.sender ≢ null
  pub target_ne : t.i.recipient ≢ null
  pub apart : t.i.sender ≢ t.i.recipient
  pub inv_live : w.invs t.inv ≡ some t.i
  pub source_live : w.clients t.i.sender ≡ some t.source
  pub target_live : w.clients t.i.recipient ≡ some t.target
  pub source_listed : find_by_id t.source.invitations t.source_id ≡ some t.inv
  pub source_knows : find_by_invitation t.source.invitations t.inv ≡ some t.source_id
  pub target_listed : find_by_id t.target.invitations t.target_id ≡ some t.inv
  pub target_knows : find_by_invitation t.target.invitations t.inv ≡ some t.target_id
  pub source_role : t.i.source_role ≡ role_of t.source_side
  pub target_role : t.i.target_role ≡ role_of (other_side t.source_side)
  pub game_ne : t.i.game ≢ null
  pub game_live : w.games t.i.game ≡ some g
  pub free : w.held ≡ []

role_in-side :
    (t : Seats) (w : World) (g : Game) (seat : Seat)
    → Table t w g
    → role_in t.i (client_at t seat) ≡ role_of (side_at t seat)
unfolding role_in
role_in-side t w g source_seat h = rw (==_self t.i.sender) h.source_role
role_in-side t w g target_seat h = ground (arith, h.apart, h.target_role)

pub Table-Match :
    (t : Seats) (w : World) (g : Game) (seat : Seat)
    → Table t w g
    → (x : Match w (client_at t seat) (id_at t seat) t.inv) × (x.game ≡ g)
      × (x.i ≡ t.i)
      × (role_in x.i (client_at t seat) ≡ role_of (side_at t seat))
Table-Match t w g source_seat h = (
  record {
    self = t.source;
    other = t.target;
    i = t.i;
    game = g;
    other_id = t.target_id;
    self_live = h.source_live;
    listed = h.source_listed;
    inv_live = h.inv_live;
    game_ne = h.game_ne;
    game_live = h.game_live;
    opponent_ne = ground (arith, h.target_ne, ==_self t.i.sender);
    opponent_other = ground (arith, h.apart);
    other_live = rw (==_self t.i.sender) h.target_live;
    other_listed = h.target_knows;
    free = h.free;
  },
  refl,
  refl,
  role_in-side t w g source_seat h,
)
Table-Match t w g target_seat h =
    let other : (t.i.recipient == t.i.sender) ≡ false = ground (arith, h.apart) in
    (
      record {
        self = t.target;
        other = t.source;
        i = t.i;
        game = g;
        other_id = t.source_id;
        self_live = h.target_live;
        listed = h.target_listed;
        inv_live = h.inv_live;
        game_ne = h.game_ne;
        game_live = h.game_live;
        opponent_ne = rw other h.source_ne;
        opponent_other = rw other h.apart;
        other_live = rw other h.source_live;
        other_listed = h.source_knows;
        free = h.free;
      },
      refl,
      refl,
      role_in-side t w g target_seat h,
    )

-- The game in memory is another one; packets were sent.
Table-after :
    (env : Env) (t : Seats) (w : World) (g h : Game) (k : Client) (id : ℕ)
    → Table t w g
    → Table t (after_move env w t.i.game k id h) h
Table-after env t w g h k id x = record {
  source_ne = x.source_ne;
  target_ne = x.target_ne;
  apart = x.apart;
  inv_live = x.inv_live;
  source_live = x.source_live;
  target_live = x.target_live;
  source_listed = x.source_listed;
  source_knows = x.source_knows;
  target_listed = x.target_listed;
  target_knows = x.target_knows;
  source_role = x.source_role;
  target_role = x.target_role;
  game_ne = x.game_ne;
  game_live = rw (==_self t.i.game) refl;
  free = x.free;
}

module _ (env : Env) (ok : AllWritten env) (t : Seats) (w : World) (g : Game) (seat : Seat)
    (str : List ℕ) (h : Table t w g) where
  abbrev taken : Option Game
  taken = attempt g (role_of (side_at t seat)) str

  -- The request of the client at the seat.
  abbrev request_at : Outcome Bool
  request_at = client_make_move env (client_at t seat) (id_at t seat) str w

  refused_at : taken ≡ none → request_at ≡ done false w
  refused_at e =
      let (x, same, same_i, role) = Table-Match t w g seat h in
      let why = attempt_refused g (role_of (side_at t seat)) str e in
      client_make_move-Refused env w (client_at t seat) (id_at t seat) x.self str x.self_live h.free
        (inr (
          t.inv,
          x.i,
          x.listed,
          x.inv_live,
          inr (x.game, x.game_ne, x.game_live, rw (same, role) why),
        ))

  taken_at :
      (g2 : Game)
      → taken ≡ some g2
      → game_is_over g2 ≡ false
      → (v : World) × (request_at ≡ done true v) × Table t v g2 × (v.players ≡ w.players)
  taken_at g2 e o =
      let (x, same, same_i, role) = Table-Match t w g seat h in
      let (m, read, legal) = attempt_taken g g2 (role_of (side_at t seat)) str e in
      (
        after_move env w t.i.game x.other x.other_id g2,
        rw (sym (ap (λ i. i.game) same_i)) (
            client_make_move_running env w (client_at t seat) (id_at t seat) t.inv str x m g2 ok
              (rw (same, role) read) (rw same legal) o),
        Table-after env t w g g2 x.other x.other_id h,
        refl,
      )

  -- The MOVE request of one of the two, where the game does not end: the game in memory is what
  -- the text makes of it, and the answer says whether it makes a move.
  pub make_move_step :
      game_is_over (or_else taken g) ≡ false
      → (v : World) × (request_at ≡ done (is_some taken) v)
        × Table t v (or_else taken g)
        × (v.players ≡ w.players)
  make_move_step o = elim (Option-cases taken) [
    | inl refused ↦ (w, rw refused (refused_at refused), rw refused h, refl)
    | inr (g2, e) ↦ rw e (taken_at g2 e (rw e at o))
  ]
