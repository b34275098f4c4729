-- ===== src/ClientRegistry/Listing.antt =====
-- What creg_all_players of src/client_registry.c hands out: a reference to each player that is
-- logged in.
use multi_threaded_tic_tac_t.Base.{
  ℕ, zero, suc, ◌+◌, ◌≤◌, ◌≡◌, refl, sym, ap, ◌∙◌, ◌≢◌, inl, inr, true, false, Option, none, some,
  List, [], ◌∷◌, arith, ◌==◌, if◌then◌else◌, length, not, ◌&&◌, Bool-cases,
}
use multi_threaded_tic_tac_t.Objects.{Ptr, null, Player, Client}
use multi_threaded_tic_tac_t.World.{
  Env, World, Mutex, done, holds, without, same_mutex, lock, unlock, player_lock, registry_lock,
  update, request, load_client, load_player,
}
use mathlib.Core.Path.{fun_ext}
use multi_threaded_tic_tac_t.Player.{player_ref, player_unref}
use multi_threaded_tic_tac_t.Client.{client_get_player}
use multi_threaded_tic_tac_t.ClientRegistry.{max_clients, players_in, creg_all_players}

abbrev inc : Option Player → Option Player
inc none = none
inc (some k) = some (record k { ref_count = k.ref_count + 1 })

-- One reference more to a player, and one more for each player of a list.
abbrev pub bump : Ptr → World → World
bump p w = record w { players = update w.players p (inc (w.players p)) }

unfoldable pub bumped : List Ptr → World → World
bumped [] w = w
bumped (p ∷ ps) w = bumped ps (bump p w)

-- A player that is there.
pub record Live (players : Ptr → Option Player) (p : Ptr) : Type 0 where
  pub player : Player
  pub player_ne : p ≢ null
  pub here : players p ≡ some player
  pub counted : 1 ≤ player.ref_count

-- Players can be locked.
abbrev pub Unlocked : World → Type 0
Unlocked w = (p : Ptr) → holds (player_lock p) w.held ≡ false

pub bump-Live : (w : World) (p q : Ptr) → Live w.players p → Live (bump q w).players p
bump-Live w p q l = elim (Bool-cases (p == q)) [
  | inl same ↦ record {
    player = record l.player { ref_count = l.player.ref_count + 1 };
    player_ne = l.player_ne;
    here = ground (arith, l.here);
    counted = omega arith;
  }
  | inr other ↦ record {
    player = l.player;
    player_ne = l.player_ne;
    here = ground (arith, l.here);
    counted = l.counted;
  }
]

player_ref-bump :
    (w : World) (p : Ptr) → Live w.players p → Unlocked w → player_ref p w ≡ done p (bump p w)
unfolding player_ref load_player lock unlock without same_mutex
player_ref-bump w p l u = ground (arith, l.player_ne, l.here, u p)

bump_comm : (w : World) (p q : Ptr) → bump p (bump q w) ≡ bump q (bump p w)
bump_comm w p q = ap (λ f. record w { players = f }) (fun_ext (λ r. ground arith))

pub bumped-bump :
    (ps : List Ptr) (p : Ptr) (w : World) → bumped ps (bump p w) ≡ bump p (bumped ps w)
unfolding bumped
bumped-bump [] p w = refl
bumped-bump (q ∷ ps) p w = ap (bumped ps) (bump_comm w q p) ∙ bumped-bump ps p (bump q w)

restored :
    (f : Ptr → Option Player) (p : Ptr) (v : Option Player) (k : Player)
    → f p ≡ some k
    → update (update f p v) p (some k) ≡ f
restored f p v k e = fun_ext (λ r. ground (arith, e))

pub player_unref-bump :
    (w : World) (p : Ptr) → Live w.players p → Unlocked w → player_unref p (bump p w) ≡ done tt w
unfolding player_unref load_player lock unlock without same_mutex
player_unref-bump w p l u =
    let given_up : player_unref p (bump p w)
        ≡ done tt (record w {
          players = update (update w.players p (inc (w.players p))) p (some l.player);
        }) =
      ground (arith, l.player_ne, l.here, l.counted, u p) in
    given_up
    ∙ ap (λ f. done tt (record w { players = f }))
        (restored w.players p (inc (w.players p)) l.player l.here)

-- The players of the clients that are logged in.
unfoldable pub seats : (Ptr → Option Client) → List Ptr → List Ptr
seats clients [] = []
seats clients (c ∷ cs) = elim (clients c) [
  | none ↦ seats clients cs
  | some k ↦
      if k.logged_in && not (k.player == null)
      then k.player ∷ seats clients cs
      else seats clients cs
]

-- Clients that are there, with players that are there.
abbrev pub AllLive : (Ptr → Option Player) → (Ptr → Option Client) → List Ptr → Type 0
AllLive players clients [] = Unit {0}
AllLive players clients (c ∷ cs) =
    (c ≢ null)
    × ((k : Client) × (clients c ≡ some k)
        × (k.logged_in ≡ true → k.player ≢ null → Live players k.player))
    × AllLive players clients cs

AllLive-bump :
    (w : World) (q : Ptr) (cs : List Ptr)
    → AllLive w.players w.clients cs
    → AllLive (bump q w).players w.clients cs
AllLive-bump w q [] h = tt
AllLive-bump w q (c ∷ cs) (n, (k, here, l), rest) =
    (n, (k, here, λ a b. bump-Live w k.player q (l a b)), AllLive-bump w q cs rest)

-- The loop hands out the players of the clients, with a reference to each.
players_in_lem :
    (cs : List Ptr) (room : ℕ) (w : World)
    → length cs ≤ room
    → AllLive w.players w.clients cs
    → Unlocked w
    → players_in cs room w ≡ done (seats w.clients cs) (bumped (seats w.clients cs) w)
unfolding players_in seats bumped client_get_player load_client
players_in_lem [] room w le h u = refl
players_in_lem (c ∷ cs) zero w le h u = absurd (omega arith)
players_in_lem (c ∷ cs) (suc room) w le (n, (k, here, l), rest) u =
    elim (Bool-cases (k.logged_in && not (k.player == null))) [
      | inl seated ↦
          let on : k.logged_in ≡ true = ground arith in
          let ne : k.player ≢ null = ground arith in
          let first = player_ref-bump w k.player (l on ne) u in
          let later =
            players_in_lem cs room (bump k.player w) (omega arith) (AllLive-bump w k.player cs rest)
              u in
          ground (arith, n, here, first, later, on, ne)
      | inr free ↦
          let later = players_in_lem cs (suc room) w (omega arith) rest u in
          ground (arith, n, here, later, free)
    ]

bumped-held :
    (ps : List Ptr) (h : List Mutex) (w : World)
    → bumped ps (record w { held = h }) ≡ record (bumped ps w) { held = h }
unfolding bumped
bumped-held [] h w = refl
bumped-held (p ∷ ps) h w = bumped-held ps h (bump p w)

-- Where objects are granted and neither the registry nor a player is locked, the list holds the
-- players of the clients that are logged in, in the order of the registry, with a reference to
-- each.
pub creg_all_players_lem :
    (env : Env) (w : World)
    → holds registry_lock w.held ≡ false
    → Unlocked w
    → env.allocate w.requests ≡ true
    → length w.client_registry.head ≤ max_clients
    → AllLive w.players w.clients w.client_registry.head
    → creg_all_players env w
      ≡ done
          (some (seats w.clients w.client_registry.head))
          (bumped (seats w.clients w.client_registry.head) (record w { requests = w.requests + 1 }))
unfolding creg_all_players request lock unlock holds without same_mutex
creg_all_players_lem env w free open_players granted le h =
    let head = w.client_registry.head in
    let ps = seats w.clients head in
    let v = record w { requests = w.requests + 1 } in
    let taken = record v { held = registry_lock ∷ w.held } in
    let found = players_in_lem head max_clients taken le h (λ p. open_players p) in
    let u = bumped ps v in
    let held : players_in head max_clients taken
        ≡ done ps (record u { held = registry_lock ∷ w.held }) =
      found ∙ ap (done ps) (bumped-held ps (registry_lock ∷ w.held) v) in
    let ran : creg_all_players env w ≡ done (some ps) (record u { held = w.held }) =
      ground (arith, free, granted, held) in
    ran ∙ ap (done (some ps)) (sym (bumped-held ps w.held v))
