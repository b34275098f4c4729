-- ===== src/Requests/Making.antt =====
-- `client_make_invitation` of src/client.c where every request is granted and every write succeeds.
use multi_threaded_tic_tac_t.Base.{
  ℕ, ◌+◌, ◌<◌, ◌≡◌, refl, ap, ◌≢◌, true, false, none, some, [], ◌∷◌, arith, length,
}
use multi_threaded_tic_tac_t.Game.{GameRole}
use multi_threaded_tic_tac_t.Objects.{
  Ptr, null, Player, Invitation, InvitationNode, Client, inv_open_state,
}
use multi_threaded_tic_tac_t.Protocol.{Header, htons, is_invalid_packet}
use multi_threaded_tic_tac_t.World.{
  Env, World, written, failed, done, holds, without, same_mutex, lock, unlock, client_lock, update,
  request, load_client, load_player,
}
use multi_threaded_tic_tac_t.Player.{player_get_name}
use multi_threaded_tic_tac_t.Client.{
  client_ref, client_get_player, client_get_fd, client_send_packet, make_packet, proto_send_packet,
}
use multi_threaded_tic_tac_t.Client.Sending.{AllWritten, stamped, after_packet, send_packet}
use multi_threaded_tic_tac_t.Invitation.{inv_create, inv_unref}
use multi_threaded_tic_tac_t.Invitation.Counts.{inv_unref_shared}
use multi_threaded_tic_tac_t.ClientList.{find_lowest_id_available, client_add_invitation}
use multi_threaded_tic_tac_t.ClientList.Update.{add_granted}
use multi_threaded_tic_tac_t.Protocol.Wire.{ntohs-htons}
use native.Mathlib.Nat.{mod-eq_of_lt}
use multi_threaded_tic_tac_t.Requests.{invited_packet, send_invited, client_make_invitation}

-- Two clients, the source logged in as a player; objects are granted, and the address of the next
-- one is not NULL and not in use.
pub record Inviting (env : Env) (w : World) (source target : Ptr) (k l : Client) (p : Player)
    : Type 0 where
  pub source_ne : source ≢ null
  pub target_ne : target ≢ null
  pub apart : source ≢ target
  pub source_live : w.clients source ≡ some k
  pub target_live : w.clients target ≡ some l
  pub logged_in : k.logged_in ≡ true
  pub player_ne : k.player ≢ null
  pub player_live : w.players k.player ≡ some p
  pub fresh_ne : w.fresh ≢ null
  pub free : w.held ≡ []
  pub granted : (n : ℕ) → env.allocate n ≡ true

-- The new invitation, and a client with one reference more.
abbrev pub offer : Ptr → Ptr → GameRole → GameRole → ℕ → Invitation
offer source target source_role target_role count = record {
  ref_count = count;
  sender = source;
  recipient = target;
  source_role = source_role;
  target_role = target_role;
  game = null;
  state = inv_open_state;
}

abbrev pub referred : Client → Client
referred k = record k { ref_count = k.ref_count + 1 }

-- A client with one reference and one invitation more.
abbrev pub invited : Ptr → Client → Client
invited inv k =
    let node : InvitationNode = record {
      invitation = inv;
      id = find_lowest_id_available k.invitations;
    } in
    record (referred k) { invitations = node ∷ k.invitations }

module _ (env : Env) (w : World) (source target : Ptr) (k l : Client) (p : Player)
    (h : Inviting env w source target k l p) (sr tr : GameRole) where
  -- The memory after `inv_create`.
  abbrev created : World
  created = record w {
    clients = update (update w.clients source (some (referred k))) target (some (referred l));
    invs = update w.invs w.fresh (some (offer source target sr tr 1));
    fresh = w.fresh + 1;
    requests = w.requests + 1;
  }

  create : inv_create env source target sr tr w ≡ done w.fresh created
  unfolding inv_create client_ref request load_client lock unlock holds without same_mutex
  create = let g = h.granted w.requests in ground arith

  source_id : ℕ
  source_id = find_lowest_id_available k.invitations

  -- The memory with the invitation in the source's list, and in both lists.
  abbrev one_added : World
  one_added = record created {
    clients = update created.clients source (some (invited w.fresh k));
    invs = update created.invs w.fresh (some (offer source target sr tr 2));
    requests = created.requests + 1;
  }

  abbrev both_added : World
  both_added = record one_added {
    clients = update one_added.clients target (some (invited w.fresh l));
    invs = update one_added.invs w.fresh (some (offer source target sr tr 3));
    requests = one_added.requests + 1;
  }

  add_source :
      client_add_invitation env source w.fresh created
      ≡ done (some (find_lowest_id_available k.invitations)) one_added
  add_source =
      add_granted env created source w.fresh (referred k) (offer source target sr tr 1) h.source_ne
        h.fresh_ne h.free (ground (arith, h.apart)) (ground arith) (h.granted created.requests)

  add_target :
      client_add_invitation env target w.fresh one_added
      ≡ done (some (find_lowest_id_available l.invitations)) both_added
  add_target =
      add_granted env one_added target w.fresh (referred l) (offer source target sr tr 2)
        h.target_ne h.fresh_ne h.free (ground (arith, h.apart)) (ground arith)
        (h.granted one_added.requests)

  abbrev packet : Header
  packet = invited_packet (find_lowest_id_available l.invitations) tr p.username

  abbrev locked : World → World
  locked v = record v { held = client_lock source ∷ [] }

  target_free : holds (client_lock target) (client_lock source ∷ []) ≡ false
  unfolding holds same_mutex
  target_free = ground (arith, h.apart)

  target_there : both_added.clients target ≡ some (invited w.fresh l)
  target_there = ground arith

  reads_name :
      send_invited env source target (find_lowest_id_available l.invitations) tr (locked both_added)
      ≡ client_send_packet env target packet (some p.username) (locked both_added)
  unfolding send_invited client_get_player load_client player_get_name load_player
  reads_name = ground (arith, h.apart, h.source_ne, h.logged_in, h.player_ne, h.player_live)

  refused :
      p.username ≡ []
      → client_send_packet env target packet (some p.username) (locked both_added)
        ≡ done failed (locked both_added)
  unfolding client_send_packet client_get_fd load_client proto_send_packet is_invalid_packet
      invited_packet make_packet lock unlock holds without same_mutex
  refused empty = ground (arith, h.apart, h.target_ne, ntohs-htons 0)

  -- The memory at the end: the invitation, held by the two lists, and the packet.
  abbrev pub made : World
  made = after_packet env l.fd packet p.username (record both_added {
    invs = update both_added.invs w.fresh (some (offer source target sr tr 2));
  })

  sends :
      AllWritten env
      → length p.username < 65536
      → length p.username ≢ 0
      → client_send_packet env target packet (some p.username) (locked both_added)
        ≡ done written (locked (after_packet env l.fd packet p.username both_added))
  unfolding invited_packet make_packet
  sends ok lt ne =
      send_packet env ok (locked both_added) target (invited w.fresh l) packet h.target_ne
        target_there target_free p.username (ap htons (mod-eq_of_lt lt)) lt ne

  gives_up :
      inv_unref w.fresh (locked (after_packet env l.fd packet p.username both_added))
      ≡ done tt (locked made)
  unfolding holds same_mutex
  gives_up =
      inv_unref_shared (locked (after_packet env l.fd packet p.username both_added)) w.fresh
        (offer source target sr tr 3) h.fresh_ne (ground arith) (omega arith) refl

  -- The source is logged in and the two clients differ (`Inviting`). An invitation is made where
  -- the objects are granted, every write succeeds and the source's name is not empty: it is open
  -- and held by exactly the two lists, under the lowest free id of each client, both clients have a
  -- reference more, and the target gets INVITED with its id, its role and the source's name.
  pub client_make_invitation_lem :
      AllWritten env
      → length p.username < 65536
      → length p.username ≢ 0
      → (v : World) × (client_make_invitation env source target sr tr w
          ≡ done (some (find_lowest_id_available k.invitations)) v)
        × (v.invs w.fresh ≡ some (offer source target sr tr 2))
        × (v.clients source ≡ some (invited w.fresh k))
        × (v.clients target ≡ some (invited w.fresh l))
        × (v.sent ≡ (l.fd, p.username) ∷ (l.fd, stamped env w.writes packet) ∷ w.sent)
        × (v.held ≡ [])
  unfolding client_make_invitation lock unlock holds without same_mutex
  client_make_invitation_lem ok lt ne =
      let s = sends ok lt ne in
      let f = h.free in
      (
        made,
        ground (arith, create, h.fresh_ne, add_source, add_target, reads_name, gives_up),
        ground arith,
        ground (arith, h.apart),
        ground arith,
        refl,
        h.free,
      )

  -- The source is logged in and the two clients differ (`Inviting`), and objects are granted. A
  -- source with an empty name can never invite: `proto_send_packet` refuses a packet with a payload
  -- pointer and the size 0. The request fails with no packet sent, and the invitation stays in both
  -- lists with one reference more than there are lists.
  pub client_make_invitation_no_name :
      p.username ≡ []
      → (v : World) × (client_make_invitation env source target sr tr w ≡ done none v)
        × (v.invs w.fresh ≡ some (offer source target sr tr 3))
        × (v.clients source ≡ some (invited w.fresh k))
        × (v.clients target ≡ some (invited w.fresh l))
        × (v.sent ≡ w.sent)
        × (v.held ≡ [])
  unfolding client_make_invitation lock unlock holds without same_mutex
  client_make_invitation_no_name empty =
      let f = h.free in
      (
        both_added,
        ground (arith, create, h.fresh_ne, add_source, add_target, reads_name, refused empty),
        ground arith,
        ground (arith, h.apart),
        ground arith,
        refl,
        h.free,
      )
