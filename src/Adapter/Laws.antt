-- ===== src/Adapter/Laws.antt =====
-- What the adapters log of a thread's dequeues.
use ispass2026_concurrent_qu.Common.{
  ℕ, zero, suc, ◌+◌, ◌≤◌, ◌≡◌, refl, sym, ap, ◌∙◌, List, [], ◌∷◌, ◌++◌, append_assoc, Option, none,
  some, update, update_here, ◌⊎◌, inl, inr, arith, length,
}
use mathlib.Core.List.{append-nil}
use native.Mathlib.Nat.{le_trans}
use ispass2026_concurrent_qu.Fairness.Log.{LogRecord}
use ispass2026_concurrent_qu.Adapter.{
  Underlying, Logs, Kind, prq, crq, faa, prq_finish, prq_adapter_dequeue, crq_finish,
  crq_adapter_dequeue, faa_finish, faa_adapter_dequeue, call, calls,
}

-- The values among the results.
abbrev pub found : List (Option ℕ) → ℕ
found [] = 0
found (none ∷ outs) = found outs
found (some v ∷ outs) = 1 + found outs

-- The invocation times of the dequeues ascend from `t` to `u`.
abbrev pub Ascends : ℕ → List LogRecord → ℕ → Type 0
Ascends t [] u = t ≤ u
Ascends t (r ∷ rs) u = (t ≤ r.2) × Ascends r.2 rs u

Ascends-from : (t t' u : ℕ) (rs : List LogRecord) → t ≤ t' → Ascends t' rs u → Ascends t rs u
Ascends-from t t' u [] le h = le_trans le h
Ascends-from t t' u (r ∷ rs) le (h, more) = (le_trans le h, more)

-- The call found nothing and logged nothing, or it returned a value and logged one record behind the
-- log of its own thread, with an invocation time between `t` and `u`.
abbrev LogsOne : ℕ → ℕ → ℕ → Logs → Option ℕ → Logs → Type 0
LogsOne t u tid logs out logs' =
    ((out ≡ none) × (logs' ≡ logs) × (t ≤ u))
    ⊎ ((v : ℕ) × (r : LogRecord) × (out ≡ some v)
        × (t ≤ r.2)
        × (r.2 ≤ u)
        × (logs' ≡ update logs tid (logs tid ++ r ∷ [])))

module _ (below : Underlying) where
  open below use {
    World, clock, node, now, dequeue, now-ge, dequeue-clock, delete_node, delete-clock,
  }

  prq_finish-LogsOne :
      (t tid : ℕ) (o : Option ℕ) (w : World) (logs : Logs)
      → t ≤ clock w
      → let (out, w', logs') = prq_finish below tid (o, w) logs in
        LogsOne t (clock w') tid logs out logs'
  unfolding prq_finish
  prq_finish-LogsOne t tid none w logs le = inl (refl, refl, le)
  prq_finish-LogsOne t tid (some ptr) w logs le =
      let w' = (now w).1 in
      let n = node w' ptr in
      inr (
        (node w ptr).value,
        (n.enq_inv_ts, n.enq_lin_ts, (now w).0, n.deq_lin_ts),
        refl,
        le_trans le (now-ge w).0,
        le_trans (now-ge w).1 (delete-clock ptr w'),
        refl,
      )

  crq_finish-prq :
      (tid : ℕ) (o : Option ℕ) (w : World) (logs : Logs)
      → crq_finish below tid (o, w) logs ≡ prq_finish below tid (o, w) logs
  unfolding crq_finish prq_finish
  crq_finish-prq tid none w logs = refl
  crq_finish-prq tid (some ptr) w logs = refl

  faa_finish-LogsOne :
      (t inv tid : ℕ) (o : Option ℕ) (w : World) (logs : Logs)
      → t ≤ inv
      → inv ≤ clock w
      → let (out, w', logs') = faa_finish below inv tid (o, w) logs in
        LogsOne t (clock w') tid logs out logs'
  unfolding faa_finish
  faa_finish-LogsOne t inv tid none w logs le lt = inl (refl, refl, le_trans le lt)
  faa_finish-LogsOne t inv tid (some ptr) w logs le lt =
      let n = node w ptr in
      inr (
        n.value,
        (n.enq_inv_ts, n.enq_lin_ts, inv, n.deq_lin_ts),
        refl,
        le,
        le_trans lt (delete-clock ptr w),
        refl,
      )

  call-LogsOne :
      (kind : Kind) (tid : ℕ) (w : World) (logs : Logs)
      → let (out, w', logs') = call below kind tid w logs in
        LogsOne (clock w) (clock w') tid logs out logs'
  unfolding prq_adapter_dequeue crq_adapter_dequeue faa_adapter_dequeue
  call-LogsOne prq tid w logs =
      prq_finish-LogsOne (clock w) tid (dequeue tid w).0 (dequeue tid w).1 logs
        (dequeue-clock tid w)
  call-LogsOne crq tid w logs = rw (crq_finish-prq tid (dequeue tid w).0 (dequeue tid w).1 logs) (
      prq_finish-LogsOne (clock w) tid (dequeue tid w).0 (dequeue tid w).1 logs
        (dequeue-clock tid w))
  call-LogsOne faa tid w logs =
      let w' = (now w).1 in
      faa_finish-LogsOne (clock w) (now w).0 tid (dequeue tid w').0 (dequeue tid w').1 logs
        (now-ge w).0 (le_trans (now-ge w).1 (dequeue-clock tid w'))

  -- One call, then the others.
  one_more :
      {t t' u : ℕ} (tid : ℕ) (logs logs' : Logs) (out : Option ℕ) (outs : List (Option ℕ))
      (after : List LogRecord)
      → LogsOne t t' tid logs out logs'
      → (rs : List LogRecord) × (after ≡ logs' tid ++ rs)
        × (length rs ≡ found outs)
        × Ascends t' rs u
      → (rs : List LogRecord) × (after ≡ logs tid ++ rs)
        × (length rs ≡ found (out ∷ outs))
        × Ascends t rs u
  one_more {t} {t'} {u} tid logs logs' out outs after (inl (e, same, le)) (rs, f, g, h) = (
    rs,
    f ∙ ap (λ m. m tid ++ rs) same,
    g ∙ sym (ap (λ o. found (o ∷ outs)) e),
    Ascends-from t t' u rs le h,
  )
  one_more {t} {t'} {u} tid logs logs' out outs after (inr (v, r, e, lo, hi, put)) (rs, f, g, h) = (
    r ∷ rs,
    f
        ∙ ap (λ m. m tid ++ rs) put
        ∙ ap (λ z. z ++ rs) (update_here logs tid (logs tid ++ r ∷ []))
        ∙ append_assoc (logs tid) (r ∷ []) rs,
    ap suc g ∙ omega arith ∙ sym (ap (λ o. found (o ∷ outs)) e),
    (lo, Ascends-from r.2 t' u rs hi h),
  )

  -- A thread that calls `dequeue` of any of the three adapters a number of times adds to its log one
  -- record for each value that was returned and none else, behind what was there, and the invocation
  -- times in these records ascend, from the time before the first call to the time after the last.
  pub calls-Ascends :
      (kind : Kind) (tid n : ℕ) (w : World) (logs : Logs)
      → let (outs, w', logs') = calls below kind tid n w logs in
        (rs : List LogRecord) × (logs' tid ≡ logs tid ++ rs)
        × (length rs ≡ found outs)
        × Ascends (clock w) rs (clock w')
  calls-Ascends kind tid zero w logs = ([], sym (append-nil (logs tid)), refl, omega arith)
  calls-Ascends kind tid (suc n) w logs =
      let (out, w', logs') = call below kind tid w logs in
      one_more tid logs logs' out (calls below kind tid n w' logs').0
        ((calls below kind tid n w' logs').2 tid) (call-LogsOne kind tid w logs)
        (calls-Ascends kind tid n w' logs')
