-- ===== src/Adapter/Commit.antt =====
-- `commit_thread_logs`, the same in every queue: under the mutex a thread's log goes to the end of
-- the records, and is cleared.
use ispass2026_concurrent_qu.Common.{
  ℕ, ◌≡◌, refl, List, [], ◌∷◌, ◌++◌, update, arith, sym, ap, ◌∙◌, Bool, false, ◌||◌, ◌==◌,
  if◌then◌else◌, update_elim,
}
use mathlib.Core.Path.{fun_ext}
use mathlib.Core.List.{append-nil, append_assoc}
use ispass2026_concurrent_qu.Fairness.Log.{LogRecord}
use ispass2026_concurrent_qu.Adapter.{Logs}

pub record Records : Type 0 where
  pub records : List LogRecord
  pub logs : Logs

append_events : ℕ → List LogRecord → Records → Records
append_events tid [] s = s
append_events tid (e ∷ events) s = record {
  records = s.records ++ e ∷ events;
  logs = update s.logs tid [];
}

unfoldable pub commit_thread_logs : ℕ → Records → Records
unfolding append_events
commit_thread_logs tid s = append_events tid (s.logs tid) s

-- The commits of a run, in the order in which the threads get the mutex.
unfoldable pub commit_all : List ℕ → Records → Records
unfolding commit_thread_logs
commit_all [] s = s
commit_all (tid ∷ tids) s = commit_all tids (commit_thread_logs tid s)

-- The logs in the order of the commits; a thread's second commit finds its log empty.
abbrev pub gathered : List ℕ → Logs → List LogRecord
gathered [] logs = []
gathered (tid ∷ tids) logs = logs tid ++ gathered tids (update logs tid [])

abbrev pub member : ℕ → List ℕ → Bool
member k [] = false
member k (tid ∷ tids) = (tid == k) || member k tids

update-same : (logs : Logs) (tid : ℕ) → logs tid ≡ [] → update logs tid [] ≡ logs
update-same logs tid e =
    fun_ext λ k. update_elim (λ x. x ≡ logs k) logs tid [] k (λ q. sym e ∙ ap logs q) (λ ne. refl)

append_events_lem :
    (tid : ℕ) (events : List LogRecord) (s : Records)
    → s.logs tid ≡ events
    → append_events tid events s
      ≡ record { records = s.records ++ events; logs = update s.logs tid [] }
unfolding append_events
append_events_lem tid [] s e =
    λ i. record { records = sym (append-nil s.records) i; logs = sym (update-same s.logs tid e) i }
append_events_lem tid (r ∷ events) s e = refl

commit_thread_logs_lem :
    (tid : ℕ) (s : Records)
    → commit_thread_logs tid s
      ≡ record { records = s.records ++ s.logs tid; logs = update s.logs tid [] }
unfolding commit_thread_logs
commit_thread_logs_lem tid s = append_events_lem tid (s.logs tid) s refl

abbrev committed : ℕ → Records → Records
committed tid s = record { records = s.records ++ s.logs tid; logs = update s.logs tid [] }

member-update :
    (tid k : ℕ) (tids : List ℕ) (logs : Logs)
    → (if member k tids then [] else update logs tid [] k)
      ≡ (if member k (tid ∷ tids) then [] else logs k)
member-update tid k tids logs = ground arith

commit_all-nil : (s : Records) → commit_all [] s ≡ s
unfolding commit_all
commit_all-nil s = refl

commit_all-cons :
    (tid : ℕ) (tids : List ℕ) (s : Records)
    → commit_all (tid ∷ tids) s ≡ commit_all tids (committed tid s)
unfolding commit_all
commit_all-cons tid tids s = ap (commit_all tids) (commit_thread_logs_lem tid s)

-- Whatever the order in which threads commit, and however often each, the records are those from
-- before, followed by the log of each thread at its first commit, in the order of the commits; the
-- logs of these threads are empty and all others unchanged.
pub commit_all_lem :
    (tids : List ℕ) (s : Records)
    → ((commit_all tids s).records ≡ s.records ++ gathered tids s.logs)
      × ((k : ℕ) → (commit_all tids s).logs k ≡ (if member k tids then [] else s.logs k))
commit_all_lem [] s = rw (commit_all-nil s) (sym (append-nil s.records), λ k. refl)
commit_all_lem (tid ∷ tids) s =
    let more = commit_all_lem tids (committed tid s) in
    rw (commit_all-cons tid tids s) (
      more.0 ∙ append_assoc s.records (s.logs tid) (gathered tids (update s.logs tid [])),
      λ k. more.1 k ∙ member-update tid k tids s.logs,
    )
