-- ===== src/World.antt =====
-- The memory that the threads of the server share, and the commands over it. `allocate` says
-- whether the n-th request for an object (its allocation and the initialisation of its mutex) is
-- granted, `write` what the n-th call of `rio_writen` answers, `clock` the time at it, and
-- `rating_text` the decimal text of a rating that is converted to `int`. A command runs as one
-- thread while no other runs; `held` are the mutexes that it has locked, and `shut` the
-- descriptors whose reading side was shut. Reading through NULL or through a freed object, or
-- writing outside a buffer, is a crash; locking a mutex twice, or waiting at a semaphore that is 0,
-- is a deadlock.
use multi_threaded_tic_tac_t.Base.{
  ℕ, ◌+◌, ◌≡◌, Bool, true, false, ◌||◌, arith, Option, none, some, List, [], ◌∷◌, ◌==◌,
  if◌then◌else◌,
}
use multi_threaded_tic_tac_t.Game.{Game}
use multi_threaded_tic_tac_t.Objects.{
  Ptr, Rating, Player, Invitation, Client, ClientRegistry, PlayerNode,
}

pub data WriteResult : Type 0 where
  written broken_pipe failed : WriteResult

pub record Env : Type 0 where
  pub allocate : ℕ → Bool
  pub write : ℕ → WriteResult
  pub clock : ℕ → ℕ × ℕ
  pub rating_text : Rating → List ℕ

pub data Mutex : Type 0 where
  player_lock game_lock inv_lock client_lock : Ptr → Mutex
  registry_lock player_registry_lock : Mutex

unfoldable pub same_mutex : Mutex → Mutex → Bool
same_mutex (player_lock p) (player_lock q) = p == q
same_mutex (game_lock p) (game_lock q) = p == q
same_mutex (inv_lock p) (inv_lock q) = p == q
same_mutex (client_lock p) (client_lock q) = p == q
same_mutex registry_lock registry_lock = true
same_mutex player_registry_lock player_registry_lock = true
same_mutex _ _ = false

pub record World : Type 0 where
  pub players : Ptr → Option Player
  pub games : Ptr → Option Game
  pub invs : Ptr → Option Invitation
  pub clients : Ptr → Option Client
  pub fresh : Ptr
  pub requests : ℕ
  pub held : List Mutex
  pub writes : ℕ
  pub sent : List (ℕ × List ℕ)
  pub shut : List ℕ
  pub client_registry : ClientRegistry
  pub player_registry : List PlayerNode

pub data Outcome {ℓ} (A : Type ℓ) : Type ℓ where
  done : A → World → Outcome A
  crash : Outcome A
  deadlock : Outcome A

abbrev pub M : Type 0 → Type 0
M A = World → Outcome A

abbrev pub pure : {A : Type 0} → A → M A
pure a w = done a w

module _ {A B : Type 0} where
  abbrev pub and_then : Outcome A → (A → M B) → Outcome B
  and_then (done a w) k = k a w
  and_then crash k = crash
  and_then deadlock k = deadlock

  infixl 5 ◌>>=◌ ◌>>◌
  abbrev pub ◌>>=◌ : M A → (A → M B) → M B
  ◌>>=◌ m k w = and_then (m w) k

  abbrev pub ◌>>◌ : M A → M B → M B
  m >> k = m >>= λ _. k

abbrev pub update {ℓ} : {A : Type ℓ} → (Ptr → Option A) → Ptr → Option A → Ptr → Option A
update f p v q = if q == p then v else f q

unfoldable pub holds : Mutex → List Mutex → Bool
unfolding same_mutex
holds m [] = false
holds m (x ∷ xs) = same_mutex m x || holds m xs

unfoldable pub without : Mutex → List Mutex → List Mutex
unfolding same_mutex
without m [] = []
without m (x ∷ xs) = if same_mutex m x then xs else x ∷ without m xs

-- `pthread_mutex_lock` and `pthread_mutex_unlock`; destroying a mutex gives it up as well.
unfoldable pub lock : Mutex → M (Unit {0})
unfolding holds
lock m w = if holds m w.held then deadlock else done tt (record w { held = m ∷ w.held })

unfoldable pub unlock : Mutex → M (Unit {0})
unfolding without
unlock m w = done tt (record w { held = without m w.held })

-- Whether the next request for an object is granted.
unfoldable pub request : Env → M Bool
request env w = done (env.allocate w.requests) (record w { requests = w.requests + 1 })

abbrev pub reach {ℓ} : {A : Type ℓ} → Option A → World → Outcome A
reach none w = crash
reach (some a) w = done a w

unfoldable pub load_player : Ptr → M Player
load_player p w = reach (w.players p) w

unfoldable pub load_game : Ptr → M Game
load_game p w = reach (w.games p) w

unfoldable pub load_inv : Ptr → M Invitation
load_inv p w = reach (w.invs p) w

unfoldable pub load_client : Ptr → M Client
load_client p w = reach (w.clients p) w

-- The raw writes: `some x` fills the address, `none` frees it.
abbrev pub put_player : Ptr → Option Player → M (Unit {0})
put_player p x w = done tt (record w { players = update w.players p x })

abbrev pub put_game : Ptr → Option Game → M (Unit {0})
put_game p x w = done tt (record w { games = update w.games p x })

abbrev pub put_inv : Ptr → Option Invitation → M (Unit {0})
put_inv p x w = done tt (record w { invs = update w.invs p x })

abbrev pub put_client : Ptr → Option Client → M (Unit {0})
put_client p x w = done tt (record w { clients = update w.clients p x })

-- The address of a new object.
abbrev pub new_address : M Ptr
new_address w = done w.fresh (record w { fresh = w.fresh + 1 })

abbrev pub get_registry : M ClientRegistry
get_registry w = done w.client_registry w

abbrev pub put_registry : ClientRegistry → M (Unit {0})
put_registry r w = done tt (record w { client_registry = r })

abbrev pub get_players : M (List PlayerNode)
get_players w = done w.player_registry w

abbrev pub put_players : List PlayerNode → M (Unit {0})
put_players l w = done tt (record w { player_registry = l })

-- A memory in which no mutex is locked.
pub unlocked_world : (w : World) → w.held ≡ [] → record w { held = [] } ≡ w
unlocked_world w e = ground arith
