-- ===== src/PlayerRegistry/Names.antt =====
-- What src/player_registry.c promises: one player for each user name.
use multi_threaded_tic_tac_t.Base.{
  ℕ, ◌+◌, ◌≡◌, refl, ◌≢◌, ◌⊎◌, inl, inr, true, none, some, List, [], ◌∷◌, arith, ==_self,
}
use multi_threaded_tic_tac_t.Objects.{Ptr, null, Name, Player, PlayerNode, initial}
use multi_threaded_tic_tac_t.World.{
  Env, World, done, holds, without, same_mutex, lock, unlock, update, request, load_player,
}
use multi_threaded_tic_tac_t.Player.{player_create, player_ref, player_unref}
use multi_threaded_tic_tac_t.PlayerRegistry.{same_text, find_player, add_player, preg_register}

pub same_text-eq : (s t : List ℕ) → same_text s t ≡ true → s ≡ t
unfolding same_text
same_text-eq [] [] h = refl
same_text-eq [] (b ∷ t) h = cc
same_text-eq (a ∷ s) [] h = cc
same_text-eq (a ∷ s) (b ∷ t) h = ground (arith, same_text-eq s t)

pub same_text_self : (s : List ℕ) → same_text s s ≡ true
unfolding same_text
same_text_self [] = refl
same_text_self (a ∷ s) = ground (arith, same_text_self s)

module _ (env : Env) (w : World) (name : Name) (free : w.held ≡ []) where
  -- A name that the registry knows: the registered player, with one reference more.
  pub register_known :
      (p : Ptr) (k : Player)
      → find_player w.player_registry name ≡ some p
      → p ≢ null
      → w.players p ≡ some k
      → preg_register env name w
        ≡ done p (record w {
          players = update w.players p (some (record k { ref_count = k.ref_count + 1 }));
        })
  unfolding preg_register player_ref load_player lock unlock holds without same_mutex
  register_known p k f n l = ground arith

  -- The memory after a new name is registered.
  abbrev pub registered : World
  registered = record w {
    players =
        update
          (update w.players w.fresh
            (some (record { username = name; rating = initial; ref_count = 1 })))
          w.fresh (some (record { username = name; rating = initial; ref_count = 2 }));
    fresh = w.fresh + 1;
    requests = w.requests + 1 + 1;
    player_registry = record { name = name; player = w.fresh } ∷ w.player_registry;
  }

  pub register_new :
      find_player w.player_registry name ≡ none
      → w.fresh ≢ null
      → env.allocate w.requests ≡ true
      → env.allocate (w.requests + 1) ≡ true
      → preg_register env name w ≡ done w.fresh registered
  unfolding preg_register add_player player_create player_ref request load_player lock unlock holds
      without same_mutex
  register_new f n a b = ground arith

  known_after : find_player registered.player_registry name ≡ some w.fresh
  unfolding find_player
  known_after = rw (same_text_self name)

-- A new name gets a new player with two references, one for the registry and one for the caller;
-- registering the name again returns the same player with a third.
pub preg_register_twice :
    (env : Env) (w : World) (name : Name)
    → w.held ≡ []
    → find_player w.player_registry name ≡ none
    → w.fresh ≢ null
    → env.allocate w.requests ≡ true
    → env.allocate (w.requests + 1) ≡ true
    → (v u : World) × (preg_register env name w ≡ done w.fresh v)
      × (v.players w.fresh ≡ some (record { username = name; rating = initial; ref_count = 2 }))
      × (preg_register env name v ≡ done w.fresh u)
      × (u.players w.fresh ≡ some (record { username = name; rating = initial; ref_count = 3 }))
      × (u.player_registry ≡ v.player_registry)
preg_register_twice env w name free f n a b =
    let v = registered env w name free in
    let k : Player = record { username = name; rating = initial; ref_count = 2 } in
    (
      v,
      record v { players = update v.players w.fresh (some (record k { ref_count = 3 })) },
      register_new env w name free f n a b,
      rw (==_self w.fresh),
      register_known env v name free w.fresh k (known_after env w name free) n
          (rw (==_self w.fresh)),
      rw (==_self w.fresh),
      refl,
    )

-- No two nodes have the same name.
abbrev pub Unique : List PlayerNode → Type 0
Unique [] = Unit {0}
Unique (n ∷ ns) = (find_player ns n.name ≡ none) × Unique ns

preg_register_adds :
    (env : Env) (name : Name) (p : Ptr) (w v : World)
    → preg_register env name w ≡ done p v
    → (v.player_registry ≡ w.player_registry)
      ⊎ ((find_player w.player_registry name ≡ none)
          × (v.player_registry ≡ record { name = name; player = p } ∷ w.player_registry))
unfolding preg_register add_player request player_create player_ref player_unref load_player lock
    unlock
preg_register_adds env name p w v e = ground arith

-- Whatever the allocations answer, registering a name keeps the names in the registry different.
pub preg_register-Unique :
    (env : Env) (name : Name) (p : Ptr) (w v : World)
    → Unique w.player_registry
    → preg_register env name w ≡ done p v
    → Unique v.player_registry
preg_register-Unique env name p w v u e = elim (preg_register_adds env name p w v e) [
  | inl same ↦ rw same u
  | inr (unknown, added) ↦ rw added (unknown, u)
]
