-- ===== src/Args/Parse.antt =====
-- What `parse_args` returns.
use ispass2026_concurrent_qu.Common.{◌≡◌, ◌≢◌, refl, ap, ◌∙◌, List, [], ◌∷◌}
use ispass2026_concurrent_qu.Args.{
  Text, Ints, Options, Outcome, ok, exit, parse_arg, default_queues, parse_loop, defaults,
  parse_args, ◌>>=◌,
}

module _ (ints : Ints) where
  default_queues-ne :
      (qs : List Text) (opts : Options ints)
      → opts.queues ≡ qs
      → (default_queues ints qs opts).queues ≢ []
  unfolding default_queues
  default_queues-ne [] opts e h = cc
  default_queues-ne (q ∷ qs) opts e h = cc

  last :
      (start opts : Options ints)
      → parse_loop ints [] start ≡ ok opts
      → default_queues ints start.queues start ≡ opts
  unfolding parse_loop
  last start opts e = cc

  first :
      (arg : Text) (args : List Text) (start : Options ints) {opts : Options ints}
      → parse_loop ints (arg ∷ args) start ≡ ok opts
      → ◌>>=◌ ints (parse_arg ints arg start) (parse_loop ints args) ≡ ok opts
  unfolding parse_loop
  first arg args start e = e

  >>=-eq-ok :
      (m : Outcome ints) (f : Options ints → Outcome ints) {opts : Options ints}
      → ◌>>=◌ ints m f ≡ ok opts
      → (a : Options ints) × (m ≡ ok a) × (f a ≡ ok opts)
  >>=-eq-ok (ok a) f e = (a, refl, e)
  >>=-eq-ok (exit n) f e = cc

  parse_loop-queues :
      (args : List Text) (start : Options ints) {opts : Options ints}
      → parse_loop ints args start ≡ ok opts
      → opts.queues ≢ []
  parse_loop-queues [] start {opts} e h =
      default_queues-ne start.queues start refl (ap (λ o. o.queues) (last start opts e) ∙ h)
  parse_loop-queues (arg ∷ args) start e h =
      let (next, _, rest) =
        >>=-eq-ok (parse_arg ints arg start) (parse_loop ints args) (first arg args start e) in
      parse_loop-queues args next rest h

  -- Whatever the arguments, the options that `parse_args` returns name a queue at least.
  pub parse_args-queues :
      (args : List Text) {opts : Options ints} → parse_args ints args ≡ ok opts → opts.queues ≢ []
  unfolding parse_args
  parse_args-queues args e = parse_loop-queues args (defaults ints) e
