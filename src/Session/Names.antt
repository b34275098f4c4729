-- ===== src/Session/Names.antt =====
-- Whether a user name is taken: the check of `client_login` of src/client.c.
use multi_threaded_tic_tac_t.Base.{
  ◌+◌, ◌≤◌, ◌≡◌, refl, sym, ap, ◌∙◌, ◌≢◌, ◌⊎◌, inl, inr, Bool, true, false, Option, none, some,
  List, [], ◌∷◌, arith, ◌==◌, if◌then◌else◌, length, not, ◌&&◌, subst, ==_false, Bool-cases, ◌↔◌,
}
use multi_threaded_tic_tac_t.Objects.{Ptr, null, Name, Player, Client}
use multi_threaded_tic_tac_t.World.{Env, World, done, holds, registry_lock, load_player}
use multi_threaded_tic_tac_t.Player.{player_get_name}
use multi_threaded_tic_tac_t.PlayerRegistry.{same_text}
use multi_threaded_tic_tac_t.PlayerRegistry.Names.{same_text-eq, same_text_self}
use multi_threaded_tic_tac_t.ClientRegistry.{max_clients}
use multi_threaded_tic_tac_t.ClientRegistry.Listing.{
  bump, bumped, Live, Unlocked, AllLive, seats, bump-Live, bumped-bump, player_unref-bump,
  creg_all_players_lem,
}
use multi_threaded_tic_tac_t.Session.{any_named, check_if_other_clients_logged_in_with_same_player}

-- The name of the player at an address.
abbrev name_of : Option Player → Name
name_of none = []
name_of (some p) = p.username

bump-name : (w : World) (p q : Ptr) → name_of ((bump q w).players p) ≡ name_of (w.players p)
bump-name w p q = ground arith

bumped-name :
    (ps : List Ptr) (p : Ptr) (w : World)
    → name_of ((bumped ps w).players p) ≡ name_of (w.players p)
unfolding bumped
bumped-name [] p w = refl
bumped-name (q ∷ ps) p w = bumped-name ps p (bump q w) ∙ bump-name w p q

bumped-Live :
    (ps : List Ptr) (p : Ptr) (w : World) → Live w.players p → Live (bumped ps w).players p
unfolding bumped
bumped-Live [] p w l = l
bumped-Live (q ∷ ps) p w l = bumped-Live ps p (bump q w) (bump-Live w p q l)

bumped-held : (ps : List Ptr) (w : World) → (bumped ps w).held ≡ w.held
unfolding bumped
bumped-held [] w = refl
bumped-held (q ∷ ps) w = bumped-held ps (bump q w)

abbrev Seated : World → List Ptr → Type 0
Seated w [] = Unit {0}
Seated w (p ∷ ps) = Live w.players p × Seated w ps

-- The answer of the check.
unfoldable named : (Ptr → Option Player) → List Ptr → Name → Bool → Bool
named players [] name result = result
named players (p ∷ ps) name result =
    named players ps name (if same_text (name_of (players p)) name then true else result)

reads_name :
    (ps : List Ptr) (p : Ptr) (w : World)
    → Live w.players p
    → player_get_name p (bumped ps w) ≡ done (some (name_of (w.players p))) (bumped ps w)
unfolding player_get_name load_player
reads_name ps p w l =
    let m : Live (bumped ps w).players p = bumped-Live ps p w l in
    let same : m.player.username ≡ name_of (w.players p) =
      ap name_of (sym m.here) ∙ bumped-name ps p w in
    rw (==_false p null m.player_ne, m.here, same)

-- The loop gives back each reference that it was handed.
any_named_lem :
    (ps : List Ptr) (name : Name) (result : Bool) (w : World)
    → Seated w ps
    → Unlocked w
    → any_named ps (some name) result (bumped ps w) ≡ done (named w.players ps name result) w
unfolding any_named bumped named
any_named_lem [] name result w s u = refl
any_named_lem (p ∷ ps) name result w (l, s) u =
    let m : Live (bumped ps w).players p = bumped-Live ps p w l in
    let unlocked : Unlocked (bumped ps w) = λ q. rw (bumped-held ps w) (u q) in
    let given_up = player_unref-bump (bumped ps w) p m unlocked in
    let moved = bumped-bump ps p w in
    let later =
      any_named_lem ps name (if same_text (name_of (w.players p)) name then true else result) w s
        u in
    rw (moved, given_up, reads_name ps p w l) later

-- A client that is logged in as a player with a name.
pub record LoggedInAs (players : Ptr → Option Player) (clients : Ptr → Option Client) (c : Ptr)
    (name : Name) : Type 0 where
  pub client : Client
  pub player : Player
  pub live : clients c ≡ some client
  pub logged_in : client.logged_in ≡ true
  pub player_ne : client.player ≢ null
  pub player_live : players client.player ≡ some player
  pub name_is : player.username ≡ name

-- One of the clients is logged in under the name.
abbrev pub Taken : (Ptr → Option Player) → (Ptr → Option Client) → List Ptr → Name → Type 0
Taken players clients [] name = ⊥
Taken players clients (c ∷ cs) name =
    LoggedInAs players clients c name ⊎ Taken players clients cs name

module _ (w : World) (name : Name) where
  abbrev is_seated : Client → Bool
  is_seated k = k.logged_in && not (k.player == null)

  seats_on :
      (c : Ptr) (cs : List Ptr) (k : Client)
      → w.clients c ≡ some k
      → is_seated k ≡ true
      → seats w.clients (c ∷ cs) ≡ k.player ∷ seats w.clients cs
  unfolding seats
  seats_on c cs k here on = ground (arith, here, on)

  seats_off :
      (c : Ptr) (cs : List Ptr) (k : Client)
      → w.clients c ≡ some k
      → is_seated k ≡ false
      → seats w.clients (c ∷ cs) ≡ seats w.clients cs
  unfolding seats
  seats_off c cs k here off = ground (arith, here, off)

  named_sound :
      (cs : List Ptr) (r : Bool)
      → AllLive w.players w.clients cs
      → named w.players (seats w.clients cs) name r ≡ true
      → (r ≡ true) ⊎ Taken w.players w.clients cs name
  unfolding named seats
  named_sound [] r h e = inl e
  named_sound (c ∷ cs) r (n, (k, here, l), rest) e = elim (Bool-cases (is_seated k)) [
    | inl on ↦
        let q : Live w.players k.player = l (ground arith) (ground arith) in
        let e1 = subst (λ ps. named w.players ps name r ≡ true) (seats_on c cs k here on) e in
        elim (Bool-cases (same_text (name_of (w.players k.player)) name)) [
          | inl same ↦ inr (
              inl (record {
                client = k;
                player = q.player;
                live = here;
                logged_in = ground arith;
                player_ne = q.player_ne;
                player_live = q.here;
                name_is =
                    ap name_of (sym q.here) ∙ same_text-eq (name_of (w.players k.player)) name same;
              }))
          | inr other ↦
              let e2 =
                subst
                  (λ t. named w.players (seats w.clients cs) name (if t then true else r) ≡ true)
                  other e1 in
              elim (named_sound cs r rest e2) [ inl a ↦ inl a | inr t ↦ inr (inr t) ]
        ]
    | inr off ↦
        let e1 = subst (λ ps. named w.players ps name r ≡ true) (seats_off c cs k here off) e in
        elim (named_sound cs r rest e1) [ inl a ↦ inl a | inr t ↦ inr (inr t) ]
  ]

  -- The answer stays true once it is.
  named-true : (ps : List Ptr) → named w.players ps name true ≡ true
  unfolding named
  named-true [] = refl
  named-true (p ∷ ps) = elim (Bool-cases (same_text (name_of (w.players p)) name)) [
    | inl same ↦ rw same (named-true ps)
    | inr other ↦ rw other (named-true ps)
  ]

  named_complete :
      (cs : List Ptr) (r : Bool)
      → AllLive w.players w.clients cs
      → Taken w.players w.clients cs name
      → named w.players (seats w.clients cs) name r ≡ true
  unfolding named
  named_complete [] r h t = absurd t
  named_complete (c ∷ cs) r (n, (k, here, l), rest) (inl t) =
      let on : is_seated k ≡ true = ground (arith, here, t.live, t.logged_in, t.player_ne) in
      let bears : name_of (w.players k.player) ≡ name =
        ground (arith, here, t.live, t.player_live, t.name_is) in
      let same : same_text (name_of (w.players k.player)) name ≡ true =
        rw bears (same_text_self name) in
      let found : named w.players (seats w.clients cs) name
            (if same_text (name_of (w.players k.player)) name then true else r)
          ≡ true =
        rw same (named-true (seats w.clients cs)) in
      rw (seats_on c cs k here on) found
  named_complete (c ∷ cs) r (n, (k, here, l), rest) (inr t) = elim (Bool-cases (is_seated k)) [
    | inl on ↦ rw (seats_on c cs k here on) (
        named_complete cs (if same_text (name_of (w.players k.player)) name then true else r) rest
          t)
    | inr off ↦ rw (seats_off c cs k here off) (named_complete cs r rest t)
  ]

AllLive-Seated :
    (w : World) (cs : List Ptr) → AllLive w.players w.clients cs → Seated w (seats w.clients cs)
unfolding seats
AllLive-Seated w [] h = tt
AllLive-Seated w (c ∷ cs) (n, (k, here, l), rest) = elim (Bool-cases (is_seated w [] k)) [
  | inl on ↦
      rw (seats_on w [] c cs k here on) (l (ground arith) (ground arith), AllLive-Seated w cs rest)
  | inr off ↦ rw (seats_off w [] c cs k here off) (AllLive-Seated w cs rest)
]

-- The check of `client_login` answers true exactly if a registered client is logged in under the
-- name, and gives back every reference that it takes: but for the one request for memory, nothing
-- changes.
pub check-Taken :
    (env : Env) (w : World) (name : Name)
    → holds registry_lock w.held ≡ false
    → Unlocked w
    → env.allocate w.requests ≡ true
    → length w.client_registry.head ≤ max_clients
    → AllLive w.players w.clients w.client_registry.head
    → (b : Bool) × (check_if_other_clients_logged_in_with_same_player env (some name) w
        ≡ done b (record w { requests = w.requests + 1 }))
      × ((b ≡ true) ↔ Taken w.players w.clients w.client_registry.head name)
unfolding check_if_other_clients_logged_in_with_same_player
check-Taken env w name free unlocked granted le h =
    let cs = w.client_registry.head in
    let ps = seats w.clients cs in
    let v = record w { requests = w.requests + 1 } in
    let listed = creg_all_players_lem env w free unlocked granted le h in
    let answered = any_named_lem ps name false v (AllLive-Seated v cs h) (λ p. unlocked p) in
    (
      named w.players ps name false,
      rw listed answered,
      (
        λ e. elim (named_sound w name cs false h e) [ inl a ↦ absurd (cc) | inr t ↦ t ],
        λ t. named_complete w name cs false h t,
      ),
    )
