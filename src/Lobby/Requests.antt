-- ===== src/Lobby/Requests.antt =====
-- A LOGIN request of src/server.c while nobody plays.
use multi_threaded_tic_tac_t.Base.{
  ℕ, ◌+◌, ◌≡◌, refl, sym, ap, ◌∙◌, subst, ◌≢◌, inl, inr, Bool, true, false, Option, some, List,
  arith, Bool-cases,
}
use multi_threaded_tic_tac_t.Objects.{Ptr, null, Name, Client}
use multi_threaded_tic_tac_t.World.{Env, World, done, holds}
use multi_threaded_tic_tac_t.PlayerRegistry.{preg_register}
use multi_threaded_tic_tac_t.ClientRegistry.{is_listed}
use multi_threaded_tic_tac_t.Client.Sending.{AllWritten}
use multi_threaded_tic_tac_t.Session.{
  client_login, check_if_other_clients_logged_in_with_same_player,
}
use multi_threaded_tic_tac_t.Session.Names.{Taken, check-Taken}
use multi_threaded_tic_tac_t.Server.{
  handle_login, check_if_other_clients_logged_in_with_same_name, copy_payload, reply,
}
use multi_threaded_tic_tac_t.Server.Guards.{Connected, acked, nacked, reply_ok, reply_refused}
use multi_threaded_tic_tac_t.Lobby.{Lobby, AllGranted}
use multi_threaded_tic_tac_t.Lobby.LoggingIn.{AllLive-of, login_granted}
use multi_threaded_tic_tac_t.Lobby.LoggingIn.Registering.{registers, Taken-back}

-- Requests for memory and packets change nothing of it.
pub Lobby-frame :
    (w : World) (r n : ℕ) (s : List (ℕ × List ℕ))
    → Lobby w
    → Lobby (record w { requests = r; writes = n; sent = s })
Lobby-frame w r n s h =
    let c = h.quiescent.closing in
    record {
      quiescent = record {
        closing = record {
          listed = c.listed;
          counted = c.counted;
          free = c.free;
          quiet = c.quiet;
          different = c.different;
          references = c.references;
        };
        different = h.quiescent.different;
        players_ne = h.quiescent.players_ne;
        players_live = h.quiescent.players_live;
      };
      bounded = h.bounded;
      fresh_ne = h.fresh_ne;
      clients_below = h.clients_below;
      players_below = h.players_below;
      known = h.known;
    }

-- The check for the name before the registration is the one of `client_login`.
name_checked :
    (env : Env) (w : World) (name : Name)
    → AllGranted env
    → Lobby w
    → (b : Bool) × (check_if_other_clients_logged_in_with_same_name env name w
        ≡ done b (record w { requests = w.requests + 1 }))
      × (b ≡ false → Taken w.players w.clients w.client_registry.head name → ⊥)
unfolding check_if_other_clients_logged_in_with_same_name
    check_if_other_clients_logged_in_with_same_player holds
name_checked env w name granted h =
    let c = h.quiescent.closing in
    let cs = w.client_registry.head in
    let (b, ran, says) =
      check-Taken env w name (rw c.free refl) (λ q. rw c.free refl) (granted w.requests)
        (omega (arith, c.counted, h.bounded))
        (AllLive-of w.clients w.players cs (λ a o e. omega (arith, c.references a o e)) c.quiet) in
    (b, ran, λ e t. let s : b ≡ true = says.1 t in absurd (cc))

pub Connected-of :
    (w : World) (c : Ptr) (k : Client) → Lobby w → c ≢ null → w.clients c ≡ some k → Connected w c k
unfolding holds
Connected-of w c k h n live = record {
  client_ne = n;
  live = live;
  free = rw h.quiescent.closing.free refl;
}

-- The parts of a LOGIN.
login_runs :
    (env : Env) (c q : Ptr) (payload : Option (List ℕ)) (w w1 u v x : World)
    → check_if_other_clients_logged_in_with_same_name env (copy_payload payload) w ≡ done false w1
    → preg_register env (copy_payload payload) w1 ≡ done q u
    → client_login env c q u ≡ done true v
    → reply env c true v ≡ done tt x
    → handle_login env c false payload w ≡ done true x
unfolding handle_login
login_runs env c q payload w w1 u v x checked registered ran answered =
    rw (checked, registered, ran, answered) refl

taken_runs :
    (env : Env) (c : Ptr) (payload : Option (List ℕ)) (w w1 x : World)
    → check_if_other_clients_logged_in_with_same_name env (copy_payload payload) w ≡ done true w1
    → reply env c false w1 ≡ done tt x
    → handle_login env c false payload w ≡ done false x
unfolding handle_login
taken_runs env c payload w w1 x checked answered = rw (checked, answered) refl

-- The flag of the thread and the mark of its client behind a LOGIN.
abbrev pub Marked : World → Ptr → Bool → Type 0
Marked v c b = (k : Client) × (v.clients c ≡ some k) × (k.logged_in ≡ b)

module _ (env : Env) (granted : AllGranted env) (written : AllWritten env) (w : World) (c : Ptr)
    (k : Client) (h : Lobby w) (listed : is_listed w.client_registry.head c ≡ true)
    (live : w.clients c ≡ some k) (client_ne : c ≢ null) where
  refusal :
      (w2 : World)
      → Lobby w2
      → w2.clients c ≡ some k
      → (v : World) × (reply env c false w2 ≡ done tt v)
        × Lobby v
        × (v.clients c ≡ some k)
        × (v.client_registry ≡ w2.client_registry)
  refusal w2 h2 live2 = (
    nacked env k w2,
    reply_refused env written w2 c k (Connected-of w2 c k h2 client_ne live2),
    Lobby-frame w2 w2.requests (w2.writes + 1) _ h2,
    live2,
    refl,
  )

  -- A LOGIN of a registered connection returns, keeps what holds between the requests, and leaves
  -- the thread's flag and the client's mark in agreement.
  pub logs_in :
      (payload : Option (List ℕ))
      → (b : Bool) × (v : World) × (handle_login env c k.logged_in payload w ≡ done b v)
        × Lobby v
        × Marked v c b
        × (v.client_registry ≡ w.client_registry)
  unfolding handle_login
  logs_in payload = elim (Bool-cases k.logged_in) [
    | inl already ↦
        let (v, replied, after, still, same) = refusal w h live in
        (true, v, rw (already, replied) refl, after, (k, still, already), same)
    | inr not_yet ↦
        let name = copy_payload payload in
        let w1 = record w { requests = w.requests + 1 } in
        let h1 = Lobby-frame w (w.requests + 1) w.writes w.sent h in
        let (b, checked, is_free) = name_checked env w name granted h in
        elim (Bool-cases b) [
          | inl taken ↦
              let (v, replied, after, still, same) = refusal w1 h1 live in
              (
                false,
                v,
                subst (λ f. handle_login env c f payload w ≡ done false v) (sym not_yet)
                    (taken_runs env c payload w w1 v (checked ∙ ap (λ f. done f w1) taken) replied),
                after,
                (k, still, not_yet),
                same,
              )
          | inr free ↦
              let (q, u, registered, r) = registers env w1 name granted h1 in
              let is_in : is_listed u.client_registry.head c ≡ true = rw r.same_registry listed in
              let there : u.clients c ≡ some k = rw r.same_clients live in
              let no_clash : Taken u.players u.clients u.client_registry.head r.player.username
                  → ⊥ =
                λ t. is_free free (
                  Taken-back w.clients w.players u.players w.client_registry.head name r.same_names
                    h.quiescent.closing.quiet
                    (rw (r.same_clients, ap (λ l. l.head) r.same_registry, r.named) at t)) in
              let (v, ran, after, now, same) =
                login_granted u q r.player c k r.half is_in there not_yet env granted no_clash in
              let answered = reply_ok env written v c _ (Connected-of v c _ after client_ne now) in
              (
                true,
                acked env (record k { logged_in = true; player = q }) v,
                subst
                    (λ f.
                      handle_login env c f payload w
                      ≡ done true (acked env (record k { logged_in = true; player = q }) v))
                    (sym not_yet)
                    (login_runs env c q payload w w1 u v _ (checked ∙ ap (λ f. done f w1) free)
                      registered ran answered),
                Lobby-frame v v.requests (v.writes + 1) _ after,
                (record k { logged_in = true; player = q }, now, refl),
                same ∙ r.same_registry,
              )
        ]
  ]
