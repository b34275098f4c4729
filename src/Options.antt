-- ===== src/Options.antt =====
-- src/main.c: the options, and what is created before the server listens. The arguments that
-- `getopt` finds are a list.
pub mod Numbers
use multi_threaded_tic_tac_t.Base.{
  ℕ, zero, ◌+◌, ◌-◌, ◌*◌, Bool, true, false, not, ◌&&◌, List, [], ◌∷◌, ltb, leb, if◌then◌else◌,
}
use multi_threaded_tic_tac_t.World.{Env, Outcome, World, done, M, pure, ◌>>=◌, ◌>>◌}
use multi_threaded_tic_tac_t.PlayerRegistry.{preg_init}
use multi_threaded_tic_tac_t.ClientRegistry.{creg_init}

-- Option `p` with its argument, or another one.
pub data Opt : Type 0 where
  port_option : List ℕ → Opt
  other_option : Opt

-- An `int`: -1, a number from 0 on, or what the C standard leaves undefined.
pub data CInt : Type 0 where
  minus_one : CInt
  number : ℕ → CInt
  undefined_int : CInt

abbrev pub is_digit : ℕ → Bool
is_digit c = leb b'0' c && leb c b'9'

unfoldable pub all_digits : List ℕ → Bool
all_digits [] = true
all_digits (c ∷ cs) = if is_digit c then all_digits cs else false

-- The value of digits behind others with the value `v`.
unfoldable pub value_from : ℕ → List ℕ → ℕ
value_from v [] = v
value_from v (c ∷ cs) = value_from (v * 10 + (c - b'0')) cs

abbrev pub int_bound : ℕ
int_bound = 2147483648

-- `atoi` of digits is defined where the value is an `int`.
unfoldable pub atoi : List ℕ → CInt
atoi str = if ltb (value_from 0 str) int_bound then number (value_from 0 str) else undefined_int

unfoldable pub my_atoi : List ℕ → CInt
my_atoi str = if all_digits str then atoi str else minus_one

pub record Options : Type 0 where
  pub port_given : Bool
  pub port : ℕ
  pub portstr : List ℕ

-- How the options end: the server listens, or the process exits.
pub data Start : Type 0 where
  listening : Options → Start
  invalid_port : Start
  missing_port : Start
  undefined_port : Start

unfoldable pub check_port : Options → Start
check_port o = if o.port_given then listening o else missing_port

unfoldable pub process_options : Options → List Opt → Start
process_options o [] = check_port o
process_options o (other_option ∷ opts) = process_options o opts
process_options o (port_option arg ∷ opts) = elim (my_atoi arg) [
  | minus_one ↦ invalid_port
  | undefined_int ↦ undefined_port
  | number n ↦ process_options (record { port_given = true; port = n; portstr = arg }) opts
]

-- The global variables before the loop.
abbrev pub no_options : Options
no_options = record { port_given = false; port = 0; portstr = [] }

-- `main` up to the socket, which is opened at `portstr`. What the registries answer is not looked
-- at.
unfoldable pub start : Env → List Opt → M Start
start env opts = elim (process_options no_options opts) [
  | listening o ↦ do clients ← creg_init env; players ← preg_init env; pure (listening o)
  | other ↦ pure other
]
