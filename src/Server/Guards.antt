-- ===== src/Server/Guards.antt =====
-- What src/server.c answers to requests that the state of the connection rules out.
use multi_threaded_tic_tac_t.Base.{
  ℕ, zero, suc, ◌+◌, ◌≤◌, ◌≡◌, refl, ◌≢◌, ◌⊎◌, inl, inr, Bool, true, false, Option, none, some,
  List, [], ◌∷◌, arith, leb, ◌&&◌, if◌then◌else◌, ==_self, ==_false, Bool-cases,
}
use multi_threaded_tic_tac_t.Objects.{Ptr, null, Name, Client}
use multi_threaded_tic_tac_t.World.{
  Env, World, Mutex, pure, ◌>>◌, Outcome, done, crash, deadlock, holds, lock, unlock, client_lock,
  registry_lock, load_client, load_player, and_then,
}
use multi_threaded_tic_tac_t.Protocol.{Header, ack_pkt, nack_pkt}
use multi_threaded_tic_tac_t.Client.{
  client_send_ack, client_send_nack, client_ref, client_get_player, make_packet,
}
use multi_threaded_tic_tac_t.Client.Sending.{AllWritten, after_header, send_header}
use multi_threaded_tic_tac_t.Player.{player_get_name}
use multi_threaded_tic_tac_t.ClientRegistry.{creg_lookup, lookup_in, player_name_of}
use multi_threaded_tic_tac_t.Server.{
  reply, answer, handle_login, handle_users, handle_invite, handle_accept, handle, serve, Packet,
  as_string, invited_roles,
}

-- A client that is there, in a memory in which its mutex is not locked.
pub record Connected (w : World) (c : Ptr) (k : Client) : Type 0 where
  pub client_ne : c ≢ null
  pub live : w.clients c ≡ some k
  pub free : holds (client_lock c) w.held ≡ false

-- The memory after an ACK or a NACK without a payload.
abbrev pub acked : Env → Client → World → World
acked env k w = after_header env k.fd (make_packet ack_pkt 0) w

abbrev pub nacked : Env → Client → World → World
nacked env k w = after_header env k.fd (make_packet nack_pkt 0) w

module _ (env : Env) (ok : AllWritten env) (w : World) (c : Ptr) (k : Client)
    (h : Connected w c k) where
  pub reply_ok : reply env c true w ≡ done tt (acked env k w)
  unfolding reply client_send_ack make_packet
  reply_ok = rw (send_header env ok w c k (make_packet ack_pkt 0) h.client_ne h.live h.free refl)

  pub reply_refused : reply env c false w ≡ done tt (nacked env k w)
  unfolding reply client_send_nack make_packet
  reply_refused =
      rw (send_header env ok w c k (make_packet nack_pkt 0) h.client_ne h.live h.free refl)

  -- Before the login, each of the requests 2 to 8 is answered with one NACK, and nothing else
  -- changes.
  pub handle_before_login :
      (hdr : Header) (payload : Option (List ℕ))
      → 2 ≤ hdr.type
      → hdr.type ≤ 8
      → handle env c false hdr payload w ≡ done false (nacked env k w)
  unfolding handle handle_users handle_invite handle_accept answer
  handle_before_login hdr payload lo hi = ground (arith, reply_refused)

  -- A second login is answered with one NACK, and the connection stays logged in.
  pub handle_second_login :
      (hdr : Header) (payload : Option (List ℕ))
      → hdr.type ≡ 1
      → handle env c true hdr payload w ≡ done true (nacked env k w)
  unfolding handle handle_login
  handle_second_login hdr payload e = ground (arith, reply_refused)

-- A packet of another type is not answered and changes nothing.
pub handle_unknown :
    (env : Env) (w : World) (c : Ptr) (logged_in : Bool) (hdr : Header) (payload : Option (List ℕ))
    → (hdr.type ≡ 0) ⊎ (9 ≤ hdr.type)
    → handle env c logged_in hdr payload w ≡ done logged_in w
unfolding handle
handle_unknown env w c logged_in hdr payload t = ground arith

-- A request that only a connection that is logged in may make.
abbrev pub is_request : ℕ → Bool
is_request t = leb 2 t && leb t 8

-- How many requests there are, and the memory after as many NACKs.
unfoldable pub refusals : List Packet → ℕ
refusals [] = 0
refusals ((hdr, payload) ∷ packets) =
    if is_request hdr.type then suc (refusals packets) else refusals packets

unfoldable pub refuse : Env → Client → ℕ → World → World
refuse env k zero w = w
refuse env k (suc n) w = refuse env k n (nacked env k w)

abbrev pub NoLogin : List Packet → Type 0
NoLogin [] = Unit {0}
NoLogin ((hdr, payload) ∷ packets) = (hdr.type ≢ 1) × NoLogin packets

-- A connection that sends no LOGIN gets one NACK for each request and no other packet, and nothing
-- else in the memory changes, whatever the packets hold.
pub serve_without_login :
    (env : Env)
    → AllWritten env
    → (w : World) (c : Ptr) (k : Client) → Connected w c k
    → (packets : List Packet) → NoLogin packets
    → serve env c false packets w ≡ done false (refuse env k (refusals packets) w)
unfolding serve refusals refuse
serve_without_login env ok w c k h [] n = refl
serve_without_login env ok w c k h ((hdr, payload) ∷ packets) (t, n) =
    elim (Bool-cases (is_request hdr.type)) [
      | inl is ↦
          rw (handle_before_login env ok w c k h hdr payload (ground arith) (ground arith), is)
            (serve_without_login env ok (nacked env k w) c k
              (record { client_ne = h.client_ne; live = h.live; free = h.free }) packets n)
      | inr other ↦
          rw (handle_unknown env w c false hdr payload (ground arith), other)
            (serve_without_login env ok w c k h packets n)
    ]

-- The client that a lookup finds has one reference more.
pub lookup_in_refers :
    (cs : List Ptr) (user : Name) (t : Ptr) (l : Client) (w v : World)
    → lookup_in cs user w ≡ done t v
    → t ≢ null
    → w.clients t ≡ some l
    → v.clients t ≡ some (record l { ref_count = l.ref_count + 1 })
unfolding lookup_in player_name_of client_ref load_client lock unlock client_get_player
    player_get_name load_player
lookup_in_refers [] user t l w v e n live = ground arith
lookup_in_refers (c ∷ cs) user t l w v e n live =
    ground (arith, lookup_in_refers cs user t l w v, ==_self t)

unlocks :
    (m : Mutex) (o : Outcome Ptr) (t : Ptr) (v : World)
    → and_then o (λ client. unlock m >> pure client) ≡ done t v
    → (x : World) × (o ≡ done t x) × (v.clients ≡ x.clients)
unfolding unlock
unlocks m (done a x) t v e = (x, ground arith, ground arith)
unlocks m crash t v e = ground arith
unlocks m deadlock t v e = ground arith

pub creg_lookup_refers :
    (user : Option Name) (t : Ptr) (l : Client) (w v : World)
    → w.held ≡ []
    → creg_lookup user w ≡ done t v
    → t ≢ null
    → w.clients t ≡ some l
    → v.clients t ≡ some (record l { ref_count = l.ref_count + 1 })
unfolding creg_lookup lock holds
creg_lookup_refers none t l w v free e n live = ground arith
creg_lookup_refers (some user) t l w v free e n live =
    let taken = record w { held = registry_lock ∷ [] } in
    let (x, found, same) =
      unlocks registry_lock (lookup_in w.client_registry.head user taken) t v (ground arith) in
    rw same (lookup_in_refers w.client_registry.head user t l taken x found n live)

-- An INVITE for a client that is found, with a role in its header that is neither 1 nor 2: the
-- answer is a NACK, and the reference to the target that the lookup took is not given back.
pub handle_invite_bad_role :
    (env : Env)
    → AllWritten env
    → (w v : World) (c : Ptr) (k : Client) (t : Ptr) (l : Client) (payload : Option (List ℕ))
      (role : ℕ)
    → creg_lookup (as_string payload) w ≡ done t v
    → w.held ≡ []
    → t ≢ null
    → t ≢ c
    → w.clients t ≡ some l
    → Connected v c k
    → invited_roles role ≡ none
    → (u : World) × (handle_invite env c true role payload w ≡ done tt u)
      × (u ≡ nacked env k v)
      × (u.clients t ≡ some (record l { ref_count = l.ref_count + 1 }))
unfolding handle_invite
handle_invite_bad_role env ok w v c k t l payload role found free n apart live h bad = (
  nacked env k v,
  rw (found, ==_false t null n, ==_false t c apart, bad) (reply_refused env ok v c k h),
  refl,
  creg_lookup_refers (as_string payload) t l w v free found n live,
)
