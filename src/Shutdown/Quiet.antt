-- ===== src/Shutdown/Quiet.antt =====
-- The clients and the players of the server while nobody plays: src/client_registry.c, src/client.c
-- and src/player.c.
use multi_threaded_tic_tac_t.Base.{
  ℕ, ◌+◌, ◌*◌, ◌≡◌, refl, ◌≢◌, ◌⊎◌, inl, inr, true, false, Option, none, some, List, [], ◌∷◌, arith,
  ◌==◌, if◌then◌else◌, length, ==_self, ==_false, ◌&&◌,
}
use multi_threaded_tic_tac_t.Objects.{Ptr, null, Player, Client}
use multi_threaded_tic_tac_t.World.{World, update}
use multi_threaded_tic_tac_t.ClientRegistry.{is_listed}

-- 1 for a client that is logged in as the player `a`, and how many of the clients are.
abbrev pub as_player : Option Client → Ptr → ℕ
as_player none a = 0
as_player (some k) a = if k.logged_in && k.player == a then 1 else 0

unfoldable pub uses : (Ptr → Option Client) → List Ptr → Ptr → ℕ
uses clients [] a = 0
uses clients (c ∷ cs) a = as_player (clients c) a + uses clients cs a

-- A client that does not play, with the registry's reference only: it is not logged in, or its
-- player is there.
pub record Quiet (clients : Ptr → Option Client) (players : Ptr → Option Player) (c : Ptr)
    : Type 0 where
  pub client : Client
  pub client_ne : c ≢ null
  pub live : clients c ≡ some client
  pub single : client.ref_count ≡ 1
  pub no_invitations : client.invitations ≡ []
  pub owner :
      ((client.logged_in ≡ false) × (client.player ≡ null))
      ⊎ ((client.logged_in ≡ true)
          × (client.player ≢ null)
          × ((p : Player) × (players client.player ≡ some p)))

abbrev pub AllQuiet : (Ptr → Option Client) → (Ptr → Option Player) → List Ptr → Type 0
AllQuiet clients players [] = Unit {0}
AllQuiet clients players (c ∷ cs) = Quiet clients players c × AllQuiet clients players cs

abbrev pub AllDifferent : List Ptr → Type 0
AllDifferent [] = Unit {0}
AllDifferent (c ∷ cs) = (is_listed cs c ≡ false) × AllDifferent cs

-- The memory while the clients `cs` are left: a player has one reference of its registry and two
-- for each client that is logged in, the client's own and the one that the service thread never
-- gives up.
pub record Closing (w : World) (cs : List Ptr) : Type 0 where
  pub listed : w.client_registry.head ≡ cs
  pub counted : w.client_registry.client_count ≡ length cs
  pub free : w.held ≡ []
  pub quiet : AllQuiet w.clients w.players cs
  pub different : AllDifferent cs
  pub references :
      (a : Ptr) (p : Player) → w.players a ≡ some p → p.ref_count ≡ 1 + 2 * uses w.clients cs a

pub uses-update :
    (clients : Ptr → Option Client) (o : Option Client) (cs : List Ptr) (c a : Ptr)
    → is_listed cs c ≡ false
    → uses (update clients c o) cs a ≡ uses clients cs a
unfolding uses is_listed
uses-update clients o [] c a h = refl
uses-update clients o (d ∷ cs) c a h = ground (arith, uses-update clients o cs c a)

-- The players that are there stay there.
abbrev pub Keeps : (Ptr → Option Player) → (Ptr → Option Player) → Type 0
Keeps f g = (a : Ptr) (p : Player) → f a ≡ some p → (q : Player) × (g a ≡ some q)

pub Quiet-update :
    {clients : Ptr → Option Client} {f g : Ptr → Option Player} (c d : Ptr)
    → Keeps f g
    → d ≢ c
    → Quiet clients f d
    → Quiet (update clients c none) g d
Quiet-update c d keeps ne h = record {
  client = h.client;
  client_ne = h.client_ne;
  live = rw (==_false d c ne) h.live;
  single = h.single;
  no_invitations = h.no_invitations;
  owner = elim h.owner [
    | inl out ↦ inl out
    | inr (a, b, (p, e)) ↦ inr (a, b, keeps h.client.player p e)
  ];
}

pub AllQuiet-update :
    (clients : Ptr → Option Client) (f g : Ptr → Option Player) (c : Ptr) (cs : List Ptr)
    → Keeps f g
    → is_listed cs c ≡ false
    → AllQuiet clients f cs
    → AllQuiet (update clients c none) g cs
unfolding is_listed
AllQuiet-update clients f g c [] keeps h q = tt
AllQuiet-update clients f g c (d ∷ cs) keeps h (q, rest) = (
  Quiet-update c d keeps (ground arith) q,
  AllQuiet-update clients f g c cs keeps (ground arith) rest,
)

-- A property of each client on its own.
pub AllQuiet-map :
    (f g : Ptr → Option Client) (p q : Ptr → Option Player) (cs : List Ptr)
    → ((c : Ptr) → is_listed cs c ≡ true → Quiet f p c → Quiet g q c)
    → AllQuiet f p cs
    → AllQuiet g q cs
unfolding is_listed
AllQuiet-map f g p q [] change h = tt
AllQuiet-map f g p q (d ∷ cs) change (x, rest) = (
  change d (rw (==_self d) refl) x,
  AllQuiet-map f g p q cs (λ c e. change c (ground (arith, e))) rest,
)
