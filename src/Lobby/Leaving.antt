-- ===== src/Lobby/Leaving.antt =====
-- The end of a connection: `end_service`, the end of `jeux_client_service` of src/server.c.
use multi_threaded_tic_tac_t.Base.{
  ◌+◌, ◌≤◌, ◌≡◌, refl, sym, ◌∙◌, subst, inl, inr, true, Option, some, arith, ◌==◌, Bool-cases,
}
use multi_threaded_tic_tac_t.Objects.{Ptr, Player, Client, ClientRegistry}
use multi_threaded_tic_tac_t.World.{Env, World, done}
use multi_threaded_tic_tac_t.ClientRegistry.{is_listed, unlist, remove_client, signal_empty}
use multi_threaded_tic_tac_t.Shutdown.{end_service}
use multi_threaded_tic_tac_t.Shutdown.Closing.{
  Holding, anonymous, logged, after_client, departed, end_service_lem,
}
use multi_threaded_tic_tac_t.Shutdown.Quiet.{Closing}
use multi_threaded_tic_tac_t.Shutdown.OneClient.{close_at}
use multi_threaded_tic_tac_t.Lobby.{Lobby}

-- The players keep their names, and no player is new.
after_client-back :
    (players : Ptr → Option Player) (k : Client) (x : Holding players k) (a : Ptr) (p : Player)
    → after_client players k x a ≡ some p
    → (o : Player) × (players a ≡ some o)
unfolding after_client
after_client-back players k (anonymous out b) a p e = (p, e)
after_client-back players k (logged {p = o} n b c d there m) a p e =
    elim (Bool-cases (a == k.player)) [
      | inl same ↦ (o, ground arith)
      | inr other ↦ (p, rw other at e)
    ]

after_client-names :
    (players : Ptr → Option Player) (k : Client) (x : Holding players k) (a : Ptr) (p : Player)
    → players a ≡ some p
    → (q : Player) × (after_client players k x a ≡ some q) × (q.username ≡ p.username)
unfolding after_client
after_client-names players k (anonymous out b) a p e = (p, e, refl)
after_client-names players k (logged {p = o} n b c d there m) a p e =
    elim (Bool-cases (a == k.player)) [
      | inl same ↦ (record o { ref_count = n + 1 }, rw same refl, ground arith)
      | inr other ↦ (p, rw other e, refl)
    ]

count_falls :
    (cr : ClientRegistry) (c : Ptr)
    → (signal_empty (remove_client cr c)).client_count ≤ cr.client_count
unfolding remove_client signal_empty
count_falls cr c = ground arith

-- The end of a registered connection returns and keeps what holds between the requests.
pub leaves :
    (env : Env) (c : Ptr) (w : World)
    → Lobby w
    → is_listed w.client_registry.head c ≡ true
    → (v : World) × (end_service env c w ≡ done tt v)
      × Lobby v
      × (v.client_registry.head ≡ unlist w.client_registry.head c)
leaves env c w h e =
    let (k, x, leaving, keeps, left) = close_at w c w.client_registry.head h.quiescent.closing e in
    let v = departed w c k x in
    (
      v,
      end_service_lem env w c k leaving x,
      record {
        quiescent = record {
          closing = subst (Closing v) (sym left.listed) left;
          different = h.quiescent.different;
          players_ne = h.quiescent.players_ne;
          players_live = λ a l. let (p, there) = h.quiescent.players_live a l in keeps a p there;
        };
        bounded = omega (arith, h.bounded, count_falls w.client_registry c);
        fresh_ne = h.fresh_ne;
        clients_below = λ d l live. ground (arith, h.clients_below d l);
        players_below = λ a p there.
            let (o, was) = after_client-back w.players k x a p there in h.players_below a o was;
        known = λ name a found.
            let (p, there, named) = h.known name a found in
            let (q, still, same) = after_client-names w.players k x a p there in
            (q, still, same ∙ named);
      },
      left.listed,
    )
