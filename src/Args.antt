-- ===== src/Args.antt =====
-- src/args.cpp and include/args.hpp: the command line. A text is the list of its bytes.
pub mod Csv
pub mod Parse
mod Tests
use Prim.Native.Char.{code}
use Prim.Native.String.{String}
use ispass2026_concurrent_qu.Common.{
  ℕ, List, [], ◌∷◌, ◌++◌, Bool, true, false, ◌&&◌, ◌||◌, ◌==◌, if◌then◌else◌, Option, none, some,
}

abbrev pub Text : Type 0
Text = List ℕ

abbrev pub codes : String → Text
codes String.[] = []
codes (String.◌∷◌ c s) = code c ∷ codes s

unfoldable pub text_eq : Text → Text → Bool
text_eq [] [] = true
text_eq (a ∷ s) (b ∷ t) = a == b && text_eq s t
text_eq _ _ = false

abbrev pub comma : ℕ
comma = b','

-- `getline(ss, tok, ',')` until the end, with the token that is being read; empty tokens are left
-- out.
unfoldable pub flush : Text → List Text → List Text
flush [] out = out
flush (c ∷ tok) out = (c ∷ tok) ∷ out

unfoldable pub split_from : Text → Text → List Text
unfolding flush
split_from tok [] = flush tok []
split_from tok (c ∷ s) =
    if c == comma then flush tok (split_from [] s) else split_from (tok ++ c ∷ []) s

unfoldable pub split_csv : Text → List Text
unfolding split_from
split_csv s = split_from [] s

-- `arg.rfind(prefix, 0) == 0`, with `arg.substr(prefix.size())`.
unfoldable pub strip_prefix : Text → Text → Option Text
strip_prefix [] arg = some arg
strip_prefix (p ∷ ps) [] = none
strip_prefix (p ∷ ps) (c ∷ arg) = if p == c then strip_prefix ps arg else none

-- An `int` is a type of which the parser uses `stoi` alone, which throws on some texts, and the
-- constants of the defaults.
pub record Ints : Type 1 where
  pub Int : Type 0
  pub stoi : Text → Option Int
  pub hundred : Int
  pub ten_thousand : Int
  pub sixteen : Int

abbrev pub all_queues : List Text
all_queues = codes "ms" ∷ codes "fc" ∷ codes "lprq" ∷ codes "faa" ∷ []

module _ (ints : Ints) where
  open ints use {Int, stoi, hundred, ten_thousand, sixteen}

  pub record Options : Type 0 where
    pub queues : List Text
    pub trials : Int
    pub ops : Int
    pub max_threads : Int

  -- `parse_args` returns options or ends the program with a status.
  pub data Outcome : Type 0 where
    ok : Options → Outcome
    exit : ℕ → Outcome

  abbrev pub with_int : Option Int → (Int → Options) → Outcome
  with_int none f = exit 1
  with_int (some n) f = ok (f n)

  -- One round of the loop: the tests of the if-chain, in order.
  unfoldable pub parse_arg : Text → Options → Outcome
  unfolding strip_prefix text_eq split_csv
  parse_arg arg opts = elim (strip_prefix (codes "--queue=") arg) [
    | some val ↦
        ok
          (record opts { queues = if text_eq val (codes "all") then all_queues else split_csv val })
    | none ↦ elim (strip_prefix (codes "--trials=") arg) [
      | some val ↦ with_int (stoi val) (λ n. record opts { trials = n })
      | none ↦ elim (strip_prefix (codes "--ops=") arg) [
        | some val ↦ with_int (stoi val) (λ n. record opts { ops = n })
        | none ↦ elim (strip_prefix (codes "--threads=") arg) [
          | some val ↦ with_int (stoi val) (λ n. record opts { max_threads = n })
          | none ↦
              if text_eq arg (codes "--help") || text_eq arg (codes "-h") then exit 0 else exit 1
        ]
      ]
    ]
  ]

  infixl 5 ◌>>=◌
  abbrev pub ◌>>=◌ : Outcome → (Options → Outcome) → Outcome
  ok opts >>= f = f opts
  exit n >>= f = exit n

  -- `if (opts.queues.empty())`
  default_queues : List Text → Options → Options
  default_queues [] opts = record opts { queues = all_queues }
  default_queues (q ∷ qs) opts = opts

  unfoldable pub parse_loop : List Text → Options → Outcome
  unfolding parse_arg default_queues
  parse_loop [] opts = ok (default_queues opts.queues opts)
  parse_loop (arg ∷ args) opts = parse_arg arg opts >>= parse_loop args

  abbrev pub defaults : Options
  defaults = record { queues = []; trials = hundred; ops = ten_thousand; max_threads = sixteen }

  -- `args` is `argv` from index 1 on.
  unfoldable pub parse_args : List Text → Outcome
  unfolding parse_loop
  parse_args args = parse_loop args defaults
