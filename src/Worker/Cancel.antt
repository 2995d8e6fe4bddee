-- ===== src/Worker/Cancel.antt =====
-- The table of cancel functions of worker_app_service.go: trackCancel, untrackCancel and cancelRunningTask,
-- as processTask and cancelListenLoop call them. A run of processTask has a number, which stands for its
-- cancel function.
pub mod Reach
use dispatchhub.Prelude.{
  ℕ, Text, Bool, true, false, Option, none, some, List, [], ◌∷◌, ◌≡◌, same, ◌==◌, if◌then◌else◌,
  is_some,
}

abbrev pub Cancels : Type 0
Cancels = List (Text × ℕ)

-- w.cancels[id]
abbrev pub find_run : Text → Cancels → Option ℕ
find_run id [] = none
find_run id ((key, run) ∷ cancels) = if same key id then some run else find_run id cancels

unfoldable pub untrack_cancel : Text → Cancels → Cancels
untrack_cancel id [] = []
untrack_cancel id ((key, run) ∷ cancels) =
    let rest = untrack_cancel id cancels in if same key id then rest else (key, run) ∷ rest

unfoldable pub track_cancel : Text → ℕ → Cancels → Cancels
unfolding untrack_cancel
track_cancel id run cancels = (id, run) ∷ untrack_cancel id cancels

-- The table, the runs between trackCancel and untrackCancel with their tasks, and the runs whose context
-- has been cancelled by a signal.
pub record Worker : Type 0 where
  pub cancels : Cancels
  pub live : List (Text × ℕ)
  pub cancelled : List ℕ

-- From trackCancel on.
unfoldable pub run_tracked : Text → ℕ → Worker → Worker
unfolding track_cancel
run_tracked id run w = record w {
  cancels = track_cancel id run w.cancels;
  live = (id, run) ∷ w.live;
}

abbrev pub without_run : ℕ → List (Text × ℕ) → List (Text × ℕ)
without_run run [] = []
without_run run ((id, n) ∷ live) =
    let rest = without_run run live in if n == run then rest else (id, n) ∷ rest

-- The deferred untrackCancel.
unfoldable pub run_untracked : Text → ℕ → Worker → Worker
run_untracked id run w = record w {
  cancels = untrack_cancel id w.cancels;
  live = without_run run w.live;
}

abbrev pub cancelled_by : Option ℕ → List ℕ → List ℕ
cancelled_by none cancelled = cancelled
cancelled_by (some run) cancelled = run ∷ cancelled

-- Whether there was a context to cancel.
unfoldable pub cancel_running_task : Text → Worker → Bool × Worker
cancel_running_task id w =
    let found = find_run id w.cancels in
    (is_some found, record w { cancelled = cancelled_by found w.cancelled })

abbrev pub new_worker : Worker
new_worker = record { cancels = []; live = []; cancelled = [] }
