-- ===== src/Requests/Accepting.antt =====
-- `client_accept_invitation` of src/client.c.
use multi_threaded_tic_tac_t.Base.{
  ℕ, ◌+◌, ◌%◌, ◌≡◌, refl, ◌≢◌, inl, inr, true, false, Option, none, some, List, [], ◌∷◌, arith,
  length, Bool-cases,
}
use multi_threaded_tic_tac_t.Game.{
  GameRole, null_role, first_player_role, second_player_role, Game, game_unparse_state,
}
use multi_threaded_tic_tac_t.Game
use multi_threaded_tic_tac_t.Game.Display.{length-game_unparse_state}
use multi_threaded_tic_tac_t.Objects.{
  Ptr, null, Invitation, Client, inv_open_state, inv_accepted_state,
}
use multi_threaded_tic_tac_t.Protocol.{Header, htons, accepted_pkt}
use multi_threaded_tic_tac_t.World.{
  Env, World, written, done, holds, without, same_mutex, lock, unlock, client_lock, update, request,
  load_client, load_inv, load_game,
}
use multi_threaded_tic_tac_t.GameObject
use multi_threaded_tic_tac_t.Client.{client_send_packet, make_packet}
use multi_threaded_tic_tac_t.Client.Sending.{
  AllWritten, packet_of, stamped, after_header, after_packet, send_header, send_packet,
}
use multi_threaded_tic_tac_t.Invitation.{
  inv_get_game, inv_get_source, inv_get_target, inv_get_source_role, inv_accept,
}
use multi_threaded_tic_tac_t.ClientList.{find_by_id, find_by_invitation}
use multi_threaded_tic_tac_t.Game.{is_first}
use multi_threaded_tic_tac_t.Requests.{
  id_packet, may_accept, game_text, send_accepted, client_accept_invitation,
}

-- An open invitation in the lists of its two clients, with the target's id for it.
pub record Acceptable (w : World) (inv : Ptr) (i : Invitation) (source target : Client)
    (source_id id : ℕ) : Type 0 where
  pub inv_ne : inv ≢ null
  pub source_ne : i.sender ≢ null
  pub apart : i.sender ≢ i.recipient
  pub inv_live : w.invs inv ≡ some i
  pub is_open : i.state ≡ inv_open_state
  pub no_game : i.game ≡ null
  pub source_live : w.clients i.sender ≡ some source
  pub target_live : w.clients i.recipient ≡ some target
  pub source_listed : find_by_invitation source.invitations inv ≡ some source_id
  pub target_listed : find_by_id target.invitations id ≡ some inv
  pub fresh_ne : w.fresh ≢ null
  pub free : w.held ≡ []

module _ (env : Env) (w : World) (inv : Ptr) (i : Invitation) (source target : Client)
    (source_id id : ℕ) (p : Acceptable w inv i source target source_id id) where
  abbrev pub begun : Invitation
  begun = record i { state = inv_accepted_state; game = w.fresh }

  -- The memory with the new game in the invitation.
  abbrev started : World
  started = record w {
    games = update w.games w.fresh (some Game.game_create);
    invs = update w.invs inv (some begun);
    fresh = w.fresh + 1;
    requests = w.requests + 1;
  }

  abbrev locked : World → World
  locked v = record v { held = client_lock i.recipient ∷ [] }

  accepts :
      env.allocate w.requests ≡ true → inv_accept env inv (locked w) ≡ done true (locked started)
  unfolding inv_accept GameObject.game_create load_inv request lock unlock holds without same_mutex
  accepts g = ground (arith, p.inv_ne, p.inv_live, p.is_open, p.fresh_ne)

  source_free : holds (client_lock i.sender) (client_lock i.recipient ∷ []) ≡ false
  unfolding holds same_mutex
  source_free = ground (arith, p.apart)

  role_read : inv_get_source_role inv (locked started) ≡ done i.source_role (locked started)
  unfolding inv_get_source_role load_inv
  role_read = ground (arith, p.inv_ne)

  text_read :
      game_text inv (locked started) ≡ done (game_unparse_state Game.game_create) (locked started)
  unfolding game_text inv_get_game load_inv load_game
  text_read = ground (arith, p.inv_ne)

  -- The ACCEPTED packet: with the picture where the source moves first, else without a payload.
  abbrev pub with_picture : Header
  with_picture = record (id_packet accepted_pkt source_id) {
    size = htons (length (game_unparse_state Game.game_create) % 65536);
  }

  abbrev pub after_first : World
  after_first =
      after_packet env source.fd with_picture (game_unparse_state Game.game_create) started

  abbrev pub after_second : World
  after_second = after_header env source.fd (id_packet accepted_pkt source_id) started

  picture_length : length (game_unparse_state Game.game_create) ≡ 44
  picture_length = (length-game_unparse_state Game.game_create).0

  size_read : with_picture.size ≡ htons (length (game_unparse_state Game.game_create))
  size_read = rw picture_length

  first_sent :
      AllWritten env
      → client_send_packet env i.sender with_picture
          (some (game_unparse_state Game.game_create))
          (locked started)
        ≡ done written (locked after_first)
  first_sent ok =
      send_packet env ok (locked started) i.sender source with_picture p.source_ne p.source_live
        source_free (game_unparse_state Game.game_create) size_read (omega (arith, picture_length))
        (omega (arith, picture_length))

  second_sent :
      AllWritten env
      → client_send_packet env i.sender (id_packet accepted_pkt source_id) none (locked started)
        ≡ done written (locked after_second)
  unfolding id_packet make_packet
  second_sent ok =
      send_header env ok (locked started) i.sender source (id_packet accepted_pkt source_id)
        p.source_ne p.source_live source_free refl

  -- The fields of the packet with the picture.
  picture_header :
      with_picture
      ≡ packet_of accepted_pkt source_id 0 (htons (length (game_unparse_state Game.game_create)))
  unfolding id_packet make_packet
  picture_header = rw picture_length refl

  plain_header : id_packet accepted_pkt source_id ≡ packet_of accepted_pkt source_id 0 (htons 0)
  unfolding id_packet make_packet
  plain_header = refl

  module _ (str : Option (List ℕ)) where
    reply_first :
        AllWritten env
        → is_first i.source_role ≡ true
        → send_accepted env i.sender inv source_id str (locked started)
          ≡ done (true, str) (locked after_first)
    unfolding send_accepted
    reply_first ok f = ground (arith, role_read, text_read, first_sent ok)

    reply_second :
        AllWritten env
        → is_first i.source_role ≡ false
        → send_accepted env i.sender inv source_id str (locked started)
          ≡ done (true, some (game_unparse_state Game.game_create)) (locked after_second)
    unfolding send_accepted
    reply_second ok f = ground (arith, role_read, text_read, second_sent ok)

    run :
        (out : Option (List ℕ)) (v : World)
        → env.allocate w.requests ≡ true
        → send_accepted env i.sender inv source_id str (locked started)
          ≡ done (true, out) (locked v)
        → client_accept_invitation env i.recipient id str w
          ≡ done (true, out) (record v { held = [] })
    unfolding client_accept_invitation may_accept inv_get_source inv_get_target inv_get_game
        load_inv load_client lock unlock holds without same_mutex
    run out v g sent = ground (
      arith,
      p.free,
      p.inv_ne,
      p.no_game,
      p.inv_live,
      p.target_live,
      p.target_listed,
      p.source_live,
      p.source_listed,
      accepts g,
    )

    -- The target accepts an open invitation that both clients list (`Acceptable`), where the game
    -- is granted and every write succeeds: the invitation is ACCEPTED with a new game that has one
    -- reference, the invitation's. A source that moves first gets the picture of the new game with
    -- ACCEPTED, and `*strp` keeps the value `str` that the caller put there; otherwise ACCEPTED has
    -- no payload and the picture goes back in `*strp` for the reply to the target. The source's id
    -- is in the packet, and no mutex stays locked.
    pub client_accept_invitation_lem :
        AllWritten env
        → env.allocate w.requests ≡ true
        → (out : Option (List ℕ)) × (v : World) × (client_accept_invitation env i.recipient id str w
            ≡ done (true, out) v)
          × (v.invs inv ≡ some (record i { state = inv_accepted_state; game = w.fresh }))
          × (v.games w.fresh ≡ some Game.game_create)
          × (v.held ≡ [])
          × (is_first i.source_role ≡ true
              → (out ≡ str)
                × (v.sent
                    ≡ (source.fd, game_unparse_state Game.game_create)
                      ∷ (
                        source.fd,
                        stamped env w.writes (
                            packet_of accepted_pkt source_id 0
                              (htons (length (game_unparse_state Game.game_create)))),
                      )
                      ∷ w.sent))
          × (is_first i.source_role ≡ false
              → (out ≡ some (game_unparse_state Game.game_create))
                × (v.sent
                    ≡ (
                      source.fd,
                      stamped env w.writes (packet_of accepted_pkt source_id 0 (htons 0)),
                    )
                      ∷ w.sent))
    client_accept_invitation_lem ok g = elim (Bool-cases (is_first i.source_role)) [
      | inl f ↦ (
        str,
        record after_first { held = [] },
        run str after_first g (reply_first ok f),
        ground arith,
        ground arith,
        refl,
        λ _. (refl, rw picture_header refl),
        λ e. absurd (cc),
      )
      | inr f ↦ (
        some (game_unparse_state Game.game_create),
        record after_second { held = [] },
        run _ after_second g (reply_second ok f),
        ground arith,
        ground arith,
        refl,
        λ e. absurd (cc),
        λ _. (refl, rw plain_header refl),
      )
    ]

    -- The same acceptance leaves the clients and the players as they were.
    pub client_accept_invitation_keeps :
        AllWritten env
        → env.allocate w.requests ≡ true
        → (out : Option (List ℕ)) × (v : World) × (client_accept_invitation env i.recipient id str w
            ≡ done (true, out) v)
          × (v.invs inv ≡ some begun)
          × (v.games w.fresh ≡ some Game.game_create)
          × (v.clients ≡ w.clients)
          × (v.players ≡ w.players)
          × (v.held ≡ [])
    client_accept_invitation_keeps ok g = elim (Bool-cases (is_first i.source_role)) [
      | inl f ↦ (
        str,
        record after_first { held = [] },
        run str after_first g (reply_first ok f),
        ground arith,
        ground arith,
        refl,
        refl,
        refl,
      )
      | inr f ↦ (
        some (game_unparse_state Game.game_create),
        record after_second { held = [] },
        run _ after_second g (reply_second ok f),
        ground arith,
        ground arith,
        refl,
        refl,
        refl,
      )
    ]
