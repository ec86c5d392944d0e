-- ===== src/Args/Tests.antt =====
-- Command lines, and the theorems there.
use ispass2026_concurrent_qu.Common.{ℕ, ◌-◌, ◌≡◌, ◌≢◌, refl, [], ◌∷◌, Option, none, some, arith}
use ispass2026_concurrent_qu.Args.{Text, codes, split_csv, Ints, ok, exit, parse_args, all_queues}
use ispass2026_concurrent_qu.Args.Csv.{join, split_csv-join}
use ispass2026_concurrent_qu.Args.Parse.{parse_args-queues}

-- One decimal digit.
abbrev digit_of : Text → Option ℕ
digit_of [] = none
digit_of (c ∷ s) = some (c - b'0')

abbrev digits : Ints
digits = record { Int = ℕ; stoi = digit_of; hundred = 100; ten_thousand = 10_000; sixteen = 16 }

command_line :
    parse_args digits (codes "--queue=ms,,faa," ∷ codes "--trials=3" ∷ [])
    ≡ ok (record {
      queues = codes "ms" ∷ codes "faa" ∷ [];
      trials = 3;
      ops = 10_000;
      max_threads = 16;
    })
unfolding parse_args
command_line = refl

unknown_argument : parse_args digits (codes "--queues=ms" ∷ []) ≡ exit 1
unfolding parse_args
unknown_argument = refl

asks_help : parse_args digits (codes "-h" ∷ codes "--trials=" ∷ []) ≡ exit 0
unfolding parse_args
asks_help = refl

split_csv-join_example :
    split_csv (join (codes "ms" ∷ codes "lprq" ∷ [])) ≡ codes "ms" ∷ codes "lprq" ∷ []
split_csv-join_example =
    split_csv-join (codes "ms" ∷ codes "lprq" ∷ [])
      ((λ h. cc, omega arith), ((λ h. cc, omega arith), tt))

parse_args-queues_example : all_queues ≢ []
unfolding parse_args
parse_args-queues_example = parse_args-queues digits (codes "--ops=5" ∷ []) refl
