-- ===== src/Waiting.antt =====
-- src/client_registry.c while several threads run: service threads that register and unregister
-- their clients under the mutex, and threads in `creg_wait_for_empty`, which take no mutex.
pub mod Waking
pub mod Starving
use multi_threaded_tic_tac_t.Base.{
  ℕ, zero, suc, ◌+◌, ◌<◌, ◌≡◌, Bool, true, false, Option, none, some, List, [], ◌∷◌, ◌==◌,
  if◌then◌else◌, length,
}
use multi_threaded_tic_tac_t.Objects.{Ptr, ClientRegistry}
use multi_threaded_tic_tac_t.ClientRegistry.{
  max_clients, insert_client, is_listed, remove_client, signal_empty, raise_flag, check_empty, pass,
}

-- Where a thread is in `creg_wait_for_empty`: not in it, behind the flag, behind the test, or
-- behind `P`.
pub data Pc : Type 0 where
  outside flagged waiting returned : Pc

-- `leaving` says that a thread is between `remove_client` and the end of `creg_unregister`, with
-- the mutex.
pub record System : Type 0 where
  pub registry : ClientRegistry
  pub leaving : Bool
  pub pc : ℕ → Pc

unfoldable pub move_pc : (ℕ → Pc) → ℕ → Pc → ℕ → Pc
move_pc f i p j = if j == i then p else f j

-- The steps of the service threads, and of `n` threads that wait.
pub data Step (n : ℕ) (s : System) : System → Type 0 where
  insert :
      (c : Ptr)
      → s.leaving ≡ false
      → s.registry.client_count < max_clients
      → Step n s (record s { registry = insert_client s.registry c })
  remove :
      (c : Ptr)
      → s.leaving ≡ false
      → is_listed s.registry.head c ≡ true
      → Step n s (record s { registry = remove_client s.registry c; leaving = true })
  signal :
      s.leaving ≡ true → Step n s (record s { registry = signal_empty s.registry; leaving = false })
  raise :
      (i : ℕ)
      → i < n
      → s.pc i ≡ outside
      → Step n s (record s { registry = raise_flag s.registry; pc = move_pc s.pc i flagged })
  check :
      (i : ℕ)
      → i < n
      → s.pc i ≡ flagged
      → Step n s (record s { registry = check_empty s.registry; pc = move_pc s.pc i waiting })
  enter :
      (i : ℕ) {r : ClientRegistry}
      → i < n
      → s.pc i ≡ waiting
      → pass s.registry ≡ some r
      → Step n s (record s { registry = r; pc = move_pc s.pc i returned })

-- The clients `cs` are registered, and no thread waits.
abbrev pub init : List Ptr → System
init cs = record {
  registry = record { P_flag = false; head = cs; client_count = length cs; semaphore = 0 };
  leaving = false;
  pc = λ i. outside;
}

pub data Reach (n : ℕ) (cs : List Ptr) : System → Type 0 where
  start : Reach n cs (init cs)
  later : {s t : System} → Reach n cs s → Step n s t → Reach n cs t
