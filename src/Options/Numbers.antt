-- ===== src/Options/Numbers.antt =====
-- What the options of src/main.c are read as.
use multi_threaded_tic_tac_t.Base.{
  inl, inr, Option, none, some, ℕ, zero, suc, ◌+◌, ◌-◌, ◌*◌, ◌/◌, ◌%◌, ◌<◌, ◌≡◌, refl, ◌∙◌, true,
  List, [], ◌∷◌, ◌++◌, arith, ltb, decimal, decimal_digits, lt→ltb, Bool-cases, ltb→lt,
}
use multi_threaded_tic_tac_t.Options.{
  Opt, port_option, other_option, number, all_digits, value_from, int_bound, atoi, my_atoi, Options,
  Start, listening, missing_port, check_port, process_options, no_options,
}

all_digits-append :
    (s t : List ℕ) → all_digits s ≡ true → all_digits t ≡ true → all_digits (s ++ t) ≡ true
unfolding all_digits
all_digits-append [] t a b = b
all_digits-append (c ∷ s) t a b = ground (arith, all_digits-append s t)

value-append :
    (v : ℕ) (s : List ℕ) (c : ℕ) → value_from v (s ++ c ∷ []) ≡ value_from v s * 10 + (c - 48)
unfolding value_from
value-append v [] c = refl
value-append v (d ∷ s) c = value-append (v * 10 + (d - 48)) s c

record Reads (s : List ℕ) (n : ℕ) : Type 0 where
  digits : all_digits s ≡ true
  value : value_from 0 s ≡ n

digits-Reads : (fuel n : ℕ) → n < fuel → Reads (decimal_digits fuel n) n
unfolding decimal_digits all_digits value_from
digits-Reads zero n h = elim h [ ]
digits-Reads (suc fuel) n h = elim (Bool-cases (ltb n 10)) [
  | inl small ↦ record {
    digits = ground (arith, small, ltb→lt n 10);
    value = ground (arith, small);
  }
  | inr large ↦
      let r = digits-Reads fuel (n / 10) (ground (arith, large)) in
      record {
        digits = rw large (
            all_digits-append (decimal_digits fuel (n / 10)) ((b'0' + n % 10) ∷ []) r.digits
              (ground arith));
        value =
            rw (large, value-append 0 (decimal_digits fuel (n / 10)) (b'0' + n % 10), r.value)
              (omega arith);
      }
]

-- A number that is an `int` is read back from its decimal text.
pub my_atoi-decimal : (n : ℕ) → n < int_bound → my_atoi (decimal n) ≡ number n
unfolding my_atoi atoi decimal
my_atoi-decimal n h =
    let r = digits-Reads (suc n) n (omega arith) in
    rw (r.digits, r.value, lt→ltb n int_bound h) refl

-- A command line that was made of numbers: `some n` is `-p` with the text of `n`.
abbrev pub arguments : List (Option ℕ) → List Opt
arguments [] = []
arguments (none ∷ xs) = other_option ∷ arguments xs
arguments (some n ∷ xs) = port_option (decimal n) ∷ arguments xs

abbrev pub AreInts : List (Option ℕ) → Type 0
AreInts [] = Unit {0}
AreInts (none ∷ xs) = AreInts xs
AreInts (some n ∷ xs) = (n < int_bound) × AreInts xs

abbrev pub chosen : ℕ → Options
chosen n = record { port_given = true; port = n; portstr = decimal n }

-- The last number, with the one before the list.
abbrev pub last_number : Option ℕ → List (Option ℕ) → Option ℕ
last_number m [] = m
last_number m (none ∷ xs) = last_number m xs
last_number m (some n ∷ xs) = last_number (some n) xs

abbrev pub expected : Option ℕ → Start
expected none = missing_port
expected (some n) = listening (chosen n)

abbrev so_far : Option ℕ → Options
so_far none = no_options
so_far (some n) = chosen n

process_options-number :
    (o : Options) (arg : List ℕ) (n : ℕ) (opts : List Opt)
    → my_atoi arg ≡ number n
    → process_options o (port_option arg ∷ opts)
      ≡ process_options (record { port_given = true; port = n; portstr = arg }) opts
unfolding process_options
process_options-number o arg n opts e = rw (process_options, e) refl

process_options_from :
    (m : Option ℕ) (xs : List (Option ℕ))
    → AreInts xs
    → process_options (so_far m) (arguments xs) ≡ expected (last_number m xs)
unfolding process_options check_port
process_options_from none [] h = refl
process_options_from (some n) [] h = refl
process_options_from m (none ∷ xs) h = process_options_from m xs h
process_options_from m (some n ∷ xs) (lt, h) =
    process_options-number (so_far m) (decimal n) n (arguments xs) (my_atoi-decimal n lt)
    ∙ process_options_from (some n) xs h

-- Where each argument of `-p` is the text of an `int`, the server listens at the last of them, as
-- a number and as a text; without one it exits.
pub process_options_lem :
    (xs : List (Option ℕ))
    → AreInts xs
    → process_options no_options (arguments xs) ≡ expected (last_number none xs)
process_options_lem xs h = process_options_from none xs h
