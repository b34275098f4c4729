-- ===== src/ClientList/Ids.antt =====
-- The identifiers of the invitations in a client's list, src/client.c.
use multi_threaded_tic_tac_t.Base.{
  ℕ, zero, suc, ◌+◌, ◌≤◌, ◌<◌, ◌≡◌, refl, true, false, some, inl, inr, List, [], ◌∷◌, arith, leb,
  if◌then◌else◌, length, Bool-cases,
}
use multi_threaded_tic_tac_t.Objects.{Ptr, InvitationNode}
use multi_threaded_tic_tac_t.ClientList.{
  id_exists, lowest_from, find_lowest_id_available, find_by_id, find_by_invitation, unlink,
}

-- The nodes with an identifier from `i` on.
count_from : ℕ → List InvitationNode → ℕ
count_from i [] = 0
count_from i (n ∷ ns) = (if leb i n.id then 1 else 0) + count_from i ns

count_from-le : (i : ℕ) (ns : List InvitationNode) → count_from (suc i) ns ≤ count_from i ns
unfolding count_from
count_from-le i [] = omega arith
count_from-le i (n ∷ ns) = ground (arith, count_from-le i ns)

count_from-lt :
    (i : ℕ) (ns : List InvitationNode)
    → id_exists ns i ≡ true
    → count_from (suc i) ns < count_from i ns
unfolding count_from id_exists
count_from-lt i [] h = cc
count_from-lt i (n ∷ ns) h = ground (arith, count_from-le i ns, count_from-lt i ns)

count_from-le-length : (i : ℕ) (ns : List InvitationNode) → count_from i ns ≤ length ns
unfolding count_from
count_from-le-length i [] = omega arith
count_from-le-length i (n ∷ ns) = ground (arith, count_from-le-length i ns)

lowest_from_free :
    (fuel : ℕ) (ns : List InvitationNode) (i : ℕ)
    → count_from i ns < fuel
    → id_exists ns (lowest_from fuel ns i) ≡ false
unfolding lowest_from
lowest_from_free zero ns i h = absurd (omega arith)
lowest_from_free (suc fuel) ns i h = elim (Bool-cases (id_exists ns i)) [
  | inl used ↦
      rw (used, lowest_from)
        (lowest_from_free fuel ns (suc i) (omega (arith, count_from-lt i ns used)))
  | inr free ↦ rw (free, lowest_from) free
]

lowest_from_least :
    (fuel : ℕ) (ns : List InvitationNode) (i j : ℕ)
    → i ≤ j
    → j < lowest_from fuel ns i
    → id_exists ns j ≡ true
unfolding lowest_from
lowest_from_least zero ns i j h k = absurd (omega arith)
lowest_from_least (suc fuel) ns i j h k = ground (arith, lowest_from_least fuel ns (suc i) j)

-- The search for an identifier ends within its fuel: the result is not in use, and every smaller
-- number is.
pub find_lowest_id_available_lem :
    (ns : List InvitationNode)
    → (id_exists ns (find_lowest_id_available ns) ≡ false)
      × ((j : ℕ) → j < find_lowest_id_available ns → id_exists ns j ≡ true)
unfolding find_lowest_id_available
find_lowest_id_available_lem ns = (
  lowest_from_free (suc (length ns)) ns 0 (omega (arith, count_from-le-length 0 ns)),
  λ j h. lowest_from_least (suc (length ns)) ns 0 j (omega arith) h,
)

-- No two nodes have the same identifier.
abbrev pub Distinct : List InvitationNode → Type 0
Distinct [] = Unit {0}
Distinct (n ∷ ns) = (id_exists ns n.id ≡ false) × Distinct ns

id_exists-unlink :
    (ns : List InvitationNode) (inv : Ptr) (id : ℕ)
    → id_exists ns id ≡ false
    → id_exists (unlink ns inv) id ≡ false
unfolding id_exists unlink
id_exists-unlink [] inv id h = refl
id_exists-unlink (n ∷ ns) inv id h = ground (arith, id_exists-unlink ns inv id)

-- Removing an invitation from a list with distinct identifiers leaves them distinct.
pub unlink-Distinct :
    (ns : List InvitationNode) (inv : Ptr) → Distinct ns → Distinct (unlink ns inv)
unfolding unlink
unlink-Distinct [] inv d = tt
unlink-Distinct (n ∷ ns) inv d =
    ground (arith, unlink-Distinct ns inv d.1, id_exists-unlink ns inv n.id)

id_exists_of_find :
    (ns : List InvitationNode) (inv : Ptr) (id : ℕ)
    → find_by_invitation ns inv ≡ some id
    → id_exists ns id ≡ true
unfolding find_by_invitation id_exists
id_exists_of_find [] inv id h = cc
id_exists_of_find (n ∷ ns) inv id h = ground (arith, id_exists_of_find ns inv id)

-- In a list with distinct identifiers, the identifier of an invitation's node leads back to the
-- invitation.
pub find_by_id-find_by_invitation :
    (ns : List InvitationNode) (inv : Ptr) (id : ℕ)
    → Distinct ns
    → find_by_invitation ns inv ≡ some id
    → find_by_id ns id ≡ some inv
unfolding find_by_id find_by_invitation
find_by_id-find_by_invitation [] inv id d h = cc
find_by_id-find_by_invitation (n ∷ ns) inv id d h =
    ground (arith, find_by_id-find_by_invitation ns inv id d.1, id_exists_of_find ns inv id)
