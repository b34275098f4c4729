-- ===== src/Lobby/Service.antt =====
-- `jeux_client_service` of src/server.c for a connection that does not play.
use multi_threaded_tic_tac_t.Base.{
  ℕ, ◌≤◌, ◌≡◌, refl, ap, ◌∙◌, subst, ◌≢◌, ◌⊎◌, inl, inr, Bool, true, false, Option, List, [], ◌∷◌,
  ==_self, ==_false,
}
use multi_threaded_tic_tac_t.Objects.{Ptr, null}
use multi_threaded_tic_tac_t.World.{Env, World, done}
use multi_threaded_tic_tac_t.ClientRegistry.{is_listed, unlist, creg_register}
use multi_threaded_tic_tac_t.Client.Sending.{AllWritten}
use multi_threaded_tic_tac_t.Protocol.{Header}
use multi_threaded_tic_tac_t.Shutdown.{end_service}
use multi_threaded_tic_tac_t.Server.{Packet, handle, handle_login, serve, jeux_client_service}
use multi_threaded_tic_tac_t.Server.Guards.{handle_unknown}
use multi_threaded_tic_tac_t.Lobby.{Lobby, AllGranted}
use multi_threaded_tic_tac_t.Lobby.Connecting.{connects}
use multi_threaded_tic_tac_t.Lobby.Leaving.{leaves}
use multi_threaded_tic_tac_t.Lobby.Requests.{Marked, logs_in}

-- A packet that is a LOGIN, or of a type that is no request.
abbrev pub IsQuiet : Packet → Type 0
IsQuiet (hdr, payload) = (hdr.type ≡ 1) ⊎ ((hdr.type ≡ 0) ⊎ (9 ≤ hdr.type))

abbrev pub AllQuietPackets : List Packet → Type 0
AllQuietPackets [] = Unit {0}
AllQuietPackets (x ∷ xs) = IsQuiet x × AllQuietPackets xs

-- The connection of a client in the lobby, with the flag of its thread.
record Served (w : World) (c : Ptr) (flag : Bool) : Type 0 where
  lobby : Lobby w
  client_ne : c ≢ null
  listed : is_listed w.client_registry.head c ≡ true
  marked : Marked w c flag

handle_login_lem :
    (env : Env) (c : Ptr) (flag : Bool) (hdr : Header) (payload : Option (List ℕ)) (b : Bool)
    (w v : World)
    → hdr.type ≡ 1
    → handle_login env c flag payload w ≡ done b v
    → handle env c flag hdr payload w ≡ done b v
unfolding handle
handle_login_lem env c flag hdr payload b w v one e = rw one e

serves_one :
    (env : Env)
    → AllGranted env
    → AllWritten env
    → (w : World) (c : Ptr) (flag : Bool) (hdr : Header) (payload : Option (List ℕ))
    → IsQuiet (hdr, payload)
    → Served w c flag
    → (b : Bool) × (v : World) × (handle env c flag hdr payload w ≡ done b v)
      × Served v c b
      × (v.client_registry ≡ w.client_registry)
serves_one env granted written w c flag hdr payload (inr other) s =
    (flag, w, handle_unknown env w c flag hdr payload other, s, refl)
serves_one env granted written w c flag hdr payload (inl login) s =
    let (k, live, agree) = s.marked in
    let (b, v, ran, after, now, same) =
      logs_in env granted written w c k s.lobby s.listed live s.client_ne payload in
    (
      b,
      v,
      handle_login_lem env c flag hdr payload b w v login
          (subst (λ f. handle_login env c f payload w ≡ done b v) agree ran),
      record { lobby = after; client_ne = s.client_ne; listed = rw same s.listed; marked = now },
      same,
    )

serves :
    (env : Env)
    → AllGranted env
    → AllWritten env
    → (packets : List Packet) (w : World) (c : Ptr) (flag : Bool) → AllQuietPackets packets
    → Served w c flag
    → (b : Bool) × (v : World) × (serve env c flag packets w ≡ done b v)
      × Served v c b
      × (v.client_registry ≡ w.client_registry)
unfolding serve
serves env granted written [] w c flag q s = (flag, w, refl, s, refl)
serves env granted written ((hdr, payload) ∷ packets) w c flag (one, rest) s =
    let (b, u, ran, there, same) = serves_one env granted written w c flag hdr payload one s in
    let (f, v, others, after, alike) = serves env granted written packets u c b rest there in
    (f, v, rw ran others, after, alike ∙ same)

-- The parts of a thread's run.
service_runs :
    (env : Env) (fd : ℕ) (packets : List Packet) (p : Ptr) (b : Bool) (w u v x : World)
    → p ≢ null
    → creg_register env fd w ≡ done p u
    → serve env p false packets u ≡ done b v
    → end_service env p v ≡ done tt x
    → jeux_client_service env fd packets w ≡ done tt x
unfolding jeux_client_service
service_runs env fd packets p b w u v x ne registered served ended =
    rw (registered, ==_false p null ne, served, ended) refl

service_refused :
    (env : Env) (fd : ℕ) (packets : List Packet) (w u : World)
    → creg_register env fd w ≡ done null u
    → jeux_client_service env fd packets w ≡ done tt u
unfolding jeux_client_service
service_refused env fd packets w u refused = rw refused refl

unlist_head : (c : Ptr) (cs : List Ptr) → unlist (c ∷ cs) c ≡ cs
unfolding unlist
unlist_head c cs = rw (==_self c) refl

-- Where every request for an object is granted, every write succeeds and nobody plays (`Lobby`):
-- the thread of a connection returns, whatever LOGIN packets and packets of no known type arrive on
-- it and whatever they hold. Behind it, what holds between the requests still does, the list of the
-- clients is what it was, and no mutex stays locked.
pub service_returns :
    (env : Env) (fd : ℕ) (packets : List Packet) (w : World)
    → AllGranted env
    → AllWritten env
    → Lobby w
    → AllQuietPackets packets
    → (v : World) × (jeux_client_service env fd packets w ≡ done tt v)
      × Lobby v
      × (v.client_registry.head ≡ w.client_registry.head)
      × (v.held ≡ [])
unfolding is_listed
service_returns env fd packets w granted written h quiet =
    let (p, u, registered, there, what) = connects env fd w granted h in
    elim what [
      | inl (nothing, same) ↦ (
        u,
        service_refused env fd packets w u (registered ∙ ap (λ q. done q u) nothing),
        there,
        ap (λ x. x.client_registry.head) same,
        there.quiescent.closing.free,
      )
      | inr (ne, first, mark) ↦
          let s : Served u p false = record {
            lobby = there;
            client_ne = ne;
            listed = rw (first, ==_self p) refl;
            marked = mark;
          } in
          let (b, v, served, after, alike) = serves env granted written packets u p false quiet s in
          let (x, ended, behind, fewer) = leaves env p v after.lobby after.listed in
          (
            x,
            service_runs env fd packets p b w u v x ne registered served ended,
            behind,
            fewer
                ∙ (ap (λ r. unlist r.head p) alike
                    ∙ (ap (λ l. unlist l p) first ∙ unlist_head p w.client_registry.head)),
            behind.quiescent.closing.free,
          )
    ]
