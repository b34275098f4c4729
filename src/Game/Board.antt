-- ===== src/Game/Board.antt =====
-- Lemmas on the board of src/game.c: what a mark on an empty cell does to the counts of marks and
-- to the lines, and the winning lines by rows, columns and diagonals.
use mathlib.Core.Path.{fun_ext}
use multi_threaded_tic_tac_t.Base.{
  ℕ, zero, suc, ◌+◌, ◌*◌, ◌-◌, ◌≤◌, ◌<◌, ◌≡◌, refl, ap, ◌≢◌, ◌↔◌, ◌⊎◌, inl, inr, Bool, true, ◌&&◌,
  ◌||◌, List, [], ◌∷◌, arith, ◌==◌, if◌then◌else◌, length, set, get_or-set_self, get_or-set_ne,
}
use multi_threaded_tic_tac_t.Game.{cell, win}

abbrev pub count : ℕ → List ℕ → ℕ
count p [] = 0
count p (c ∷ cs) = (if c == p then 1 else 0) + count p cs

-- Every cell is a space, an X or an O.
abbrev pub AllMarks : List ℕ → Type 0
AllMarks [] = Unit {0}
AllMarks (c ∷ cs) = (c ≤ 2) × AllMarks cs

pub AllMarks-set : (b : List ℕ) (i v : ℕ) → v ≤ 2 → AllMarks b → AllMarks (set b i v)
AllMarks-set [] i v h a = tt
AllMarks-set (c ∷ cs) zero v h a = (h, a.1)
AllMarks-set (c ∷ cs) (suc i) v h a = (a.0, AllMarks-set cs i v h a.1)

pub count-set_self :
    (b : List ℕ) (i v : ℕ)
    → i < length b
    → cell b i ≡ 0
    → v ≢ 0
    → count v (set b i v) ≡ suc (count v b)
count-set_self [] i v h e n = elim h [ ]
count-set_self (c ∷ cs) zero v h e n = ground arith
count-set_self (c ∷ cs) (suc i) v h e n = ground (arith, count-set_self cs i v)

pub count-set_other :
    (b : List ℕ) (i v p : ℕ) → cell b i ≡ 0 → v ≢ p → p ≢ 0 → count p (set b i v) ≡ count p b
count-set_other [] i v p e n z = refl
count-set_other (c ∷ cs) zero v p e n z = ground arith
count-set_other (c ∷ cs) (suc i) v p e n z = ground (arith, count-set_other cs i v p)

-- A board that is not full has an empty cell.
pub empty_cell :
    (b : List ℕ)
    → AllMarks b
    → count 1 b + count 2 b < length b
    → (i : ℕ) × (i < length b) × (cell b i ≡ 0)
empty_cell [] a h = elim h [ ]
empty_cell (zero ∷ cs) a h = (0, omega arith, refl)
empty_cell (suc zero ∷ cs) a h =
    let (i, lt, e) = empty_cell cs a.1 (omega arith) in (suc i, omega arith, e)
empty_cell (suc (suc c) ∷ cs) a h =
    let (i, lt, e) = empty_cell cs a.1 (ground arith) in (suc i, omega arith, e)

count-le-length : (b : List ℕ) → count 1 b + count 2 b ≤ length b
count-le-length [] = omega arith
count-le-length (c ∷ cs) = ground (arith, count-le-length cs)

-- A board with an empty cell is not full.
pub count-lt-length :
    (b : List ℕ) (i : ℕ) → i < length b → cell b i ≡ 0 → count 1 b + count 2 b < length b
count-lt-length [] i h e = elim h [ ]
count-lt-length (c ∷ cs) zero h e = ground (arith, count-le-length cs)
count-lt-length (c ∷ cs) (suc i) h e = ground (arith, count-lt-length cs i)

-- `win` as a function of the cells that hold the player's mark.
abbrev lines : (ℕ → Bool) → Bool
lines f =
    (f 0 && (f 1 && f 2))
    || ((f 3 && (f 4 && f 5))
        || ((f 6 && (f 7 && f 8))
            || ((f 0 && (f 3 && f 6))
                || ((f 1 && (f 4 && f 7))
                    || ((f 2 && (f 5 && f 8))
                        || ((f 0 && (f 4 && f 8)) || (f 2 && (f 4 && f 6))))))))

win-lines : (b : List ℕ) (p : ℕ) → win b p ≡ lines (λ j. cell b j == p)
unfolding win
win-lines b p = refl

mark-set_other :
    (b : List ℕ) (i v p : ℕ)
    → i < length b
    → cell b i ≡ 0
    → v ≢ p
    → p ≢ 0
    → (j : ℕ) → (cell (set b i v) j == p) ≡ (cell b j == p)
mark-set_other b i v p h e n z j = ground (arith, get_or-set_self b i v 0, get_or-set_ne b i j v 0)

-- A mark of one player does not change whether the other has a line.
pub win-set_other :
    (b : List ℕ) (i v p : ℕ)
    → i < length b
    → cell b i ≡ 0
    → v ≢ p
    → p ≢ 0
    → win (set b i v) p ≡ win b p
win-set_other b i v p h e n z =
    rw (win-lines (set b i v) p, win-lines b p)
      (ap lines (fun_ext (mark-set_other b i v p h e n z)))

-- The player's mark stands in all three cells of row `r`, of column `c`, of a diagonal.
abbrev pub HasRow : List ℕ → ℕ → ℕ → Type 0
HasRow b p r = (c : ℕ) → c < 3 → cell b (3 * r + c) ≡ p

abbrev pub HasColumn : List ℕ → ℕ → ℕ → Type 0
HasColumn b p c = (r : ℕ) → r < 3 → cell b (3 * r + c) ≡ p

abbrev pub HasDiagonal : List ℕ → ℕ → Type 0
HasDiagonal b p =
    ((r : ℕ) → r < 3 → cell b (3 * r + r) ≡ p) ⊎ ((r : ℕ) → r < 3 → cell b (3 * r + (2 - r)) ≡ p)

abbrev pub HasLine : List ℕ → ℕ → Type 0
HasLine b p =
    ((r : ℕ) × (r < 3) × HasRow b p r) ⊎ ((c : ℕ) × (c < 3) × HasColumn b p c) ⊎ HasDiagonal b p

below3 : (P : ℕ → Type 0) → P 0 → P 1 → P 2 → (i : ℕ) → i < 3 → P i
below3 P a b c zero h = a
below3 P a b c (suc zero) h = b
below3 P a b c (suc (suc zero)) h = c
below3 P a b c (suc (suc (suc i))) h = absurd (omega arith)

-- One line of three cells.
abbrev Three : List ℕ → ℕ → ℕ → ℕ → ℕ → Type 0
Three b p i j k = (cell b i ≡ p) × (cell b j ≡ p) × (cell b k ≡ p)

abbrev AnyLine : List ℕ → ℕ → Type 0
AnyLine b p =
    Three b p 0 1 2
    ⊎ Three b p 3 4 5
    ⊎ Three b p 6 7 8
    ⊎ Three b p 0 3 6
    ⊎ Three b p 1 4 7
    ⊎ Three b p 2 5 8
    ⊎ Three b p 0 4 8
    ⊎ Three b p 2 4 6

win-AnyLine : (b : List ℕ) (p : ℕ) → win b p ≡ true → AnyLine b p
unfolding win
win-AnyLine b p h = ground arith

AnyLine-win : (b : List ℕ) (p : ℕ) → AnyLine b p → win b p ≡ true
unfolding win
AnyLine-win b p h = ground arith

-- The three cells of a line, read by their place in it.
along :
    (b : List ℕ) (p : ℕ) (at : ℕ → ℕ)
    → Three b p (at 0) (at 1) (at 2)
    → (i : ℕ) → i < 3
    → cell b (at i) ≡ p
along b p at t = below3 (λ i. cell b (at i) ≡ p) t.0 t.1 t.2

AnyLine-HasLine : (b : List ℕ) (p : ℕ) → AnyLine b p → HasLine b p
AnyLine-HasLine b p (inl t) = inl (0, omega arith, along b p (λ c. 3 * 0 + c) t)
AnyLine-HasLine b p (inr (inl t)) = inl (1, omega arith, along b p (λ c. 3 * 1 + c) t)
AnyLine-HasLine b p (inr (inr (inl t))) = inl (2, omega arith, along b p (λ c. 3 * 2 + c) t)
AnyLine-HasLine b p (inr (inr (inr (inl t)))) =
    inr (inl (0, omega arith, along b p (λ r. 3 * r + 0) t))
AnyLine-HasLine b p (inr (inr (inr (inr (inl t))))) =
    inr (inl (1, omega arith, along b p (λ r. 3 * r + 1) t))
AnyLine-HasLine b p (inr (inr (inr (inr (inr (inl t)))))) =
    inr (inl (2, omega arith, along b p (λ r. 3 * r + 2) t))
AnyLine-HasLine b p (inr (inr (inr (inr (inr (inr (inl t))))))) =
    inr (inr (inl (along b p (λ r. 3 * r + r) t)))
AnyLine-HasLine b p (inr (inr (inr (inr (inr (inr (inr t))))))) =
    inr (inr (inr (along b p (λ r. 3 * r + (2 - r)) t)))

-- The three cells of a line, from the statement about all of it.
first-Three :
    (b : List ℕ) (p : ℕ) (at : ℕ → ℕ)
    → ((i : ℕ) → i < 3 → cell b (at i) ≡ p)
    → Three b p (at 0) (at 1) (at 2)
first-Three b p at h = (h 0 (omega arith), h 1 (omega arith), h 2 (omega arith))

row-AnyLine : (b : List ℕ) (p r : ℕ) → r < 3 → HasRow b p r → AnyLine b p
row-AnyLine b p zero h t = inl (first-Three b p (λ c. 3 * 0 + c) t)
row-AnyLine b p (suc zero) h t = inr (inl (first-Three b p (λ c. 3 * 1 + c) t))
row-AnyLine b p (suc (suc zero)) h t = inr (inr (inl (first-Three b p (λ c. 3 * 2 + c) t)))
row-AnyLine b p (suc (suc (suc r))) h t = absurd (omega arith)

column-AnyLine : (b : List ℕ) (p c : ℕ) → c < 3 → HasColumn b p c → AnyLine b p
column-AnyLine b p zero h t = inr (inr (inr (inl (first-Three b p (λ r. 3 * r + 0) t))))
column-AnyLine b p (suc zero) h t = inr (inr (inr (inr (inl (first-Three b p (λ r. 3 * r + 1) t)))))
column-AnyLine b p (suc (suc zero)) h t =
    inr (inr (inr (inr (inr (inl (first-Three b p (λ r. 3 * r + 2) t))))))
column-AnyLine b p (suc (suc (suc c))) h t = absurd (omega arith)

HasLine-AnyLine : (b : List ℕ) (p : ℕ) → HasLine b p → AnyLine b p
HasLine-AnyLine b p (inl (r, lt, t)) = row-AnyLine b p r lt t
HasLine-AnyLine b p (inr (inl (c, lt, t))) = column-AnyLine b p c lt t
HasLine-AnyLine b p (inr (inr (inl t))) =
    inr (inr (inr (inr (inr (inr (inl (first-Three b p (λ r. 3 * r + r) t)))))))
HasLine-AnyLine b p (inr (inr (inr t))) =
    inr (inr (inr (inr (inr (inr (inr (first-Three b p (λ r. 3 * r + (2 - r)) t)))))))

-- `win` answers true exactly when the player's mark fills a row, a column or a diagonal.
pub win-HasLine : (b : List ℕ) (p : ℕ) → (win b p ≡ true) ↔ HasLine b p
win-HasLine b p =
    (λ h. AnyLine-HasLine b p (win-AnyLine b p h), λ h. AnyLine-win b p (HasLine-AnyLine b p h))
