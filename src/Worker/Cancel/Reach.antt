-- ===== src/Worker/Cancel/Reach.antt =====
-- Which runs a cancel signal reaches.
use dispatchhub.Prelude.{
  subst, ℕ, ◌≡◌, ◌≢◌, refl, ap, ◌∙◌, sym, Text, true, false, Option, none, some, List, [], ◌∷◌,
  same, same_iff, same_refl, ◌==◌, ==_iff, is_some, if◌then◌else◌, arith, Bool-cases, inl, inr,
}
use dispatchhub.Worker.Cancel.{
  Cancels, find_run, track_cancel, untrack_cancel, Worker, run_tracked, run_untracked, without_run,
  cancelled_by, cancel_running_task, new_worker,
}

-- The run of a task among the live ones.
abbrev pub run_of : Text → List (Text × ℕ) → Option ℕ
run_of id [] = none
run_of id ((t, run) ∷ live) = if same t id then some run else run_of id live

abbrev pub task_of : ℕ → List (Text × ℕ) → Option Text
task_of run [] = none
task_of run ((t, n) ∷ live) = if n == run then some t else task_of run live

-- Steps of a worker that runs no task twice at a time.
pub data Step (w : Worker) : Worker → Type 0 where
  tracked :
      (id : Text) (run : ℕ)
      → run_of id w.live ≡ none
      → task_of run w.live ≡ none
      → Step w (run_tracked id run w)
  untracked : (id : Text) (run : ℕ) → run_of id w.live ≡ some run → Step w (run_untracked id run w)
  signalled : (id : Text) → Step w (cancel_running_task id w).1

pub data Reached : Worker → Type 0 where
  at_start : Reached new_worker
  then_step : {w w' : Worker} → Reached w → Step w w' → Reached w'

find_run-untrack :
    (id j : Text) (cancels : Cancels)
    → find_run j (untrack_cancel id cancels) ≡ (if same id j then none else find_run j cancels)
unfolding untrack_cancel
find_run-untrack id j [] = ground arith
find_run-untrack id j ((key, run) ∷ cancels) =
    ground (arith, find_run-untrack id j cancels, same_iff key id, same_iff key j, same_iff id j)

find_run-track :
    (id j : Text) (run : ℕ) (cancels : Cancels)
    → find_run j (track_cancel id run cancels)
      ≡ (if same id j then some run else find_run j cancels)
unfolding track_cancel
find_run-track id j run cancels = ground (arith, find_run-untrack id j cancels)

-- No task and no run is among the live ones twice.
abbrev IsSingle : List (Text × ℕ) → Type 0
IsSingle [] = Unit
IsSingle ((t, run) ∷ live) = (run_of t live ≡ none) × (task_of run live ≡ none) × IsSingle live

without-absent :
    (run : ℕ) (live : List (Text × ℕ)) → task_of run live ≡ none → without_run run live ≡ live
without-absent run [] h = refl
without-absent run ((t, n) ∷ live) h = elim (Bool-cases (n == run)) [
  | inl e ↦ absurd (ground (arith, h, e))
  | inr e ↦ rw e (ap (λ xs. (t, n) ∷ xs) (without-absent run live (ground (arith, h, e))))
]

-- A live run has a task.
run_of-task :
    (id : Text) (run : ℕ) (live : List (Text × ℕ))
    → run_of id live ≡ some run
    → is_some (task_of run live) ≡ true
run_of-task id run [] h = cc h
run_of-task id run ((t, n) ∷ live) h = elim (Bool-cases (same t id)) [
  | inl e ↦ ground (arith, h, e, ==_iff n run)
  | inr e ↦ let rest = run_of-task id run live (ground (arith, h, e)) in ground (arith, rest)
]

run_of-apart :
    (id : Text) (run n : ℕ) (live : List (Text × ℕ))
    → run_of id live ≡ some run
    → task_of n live ≡ none
    → (n == run) ≡ false
run_of-apart id run n live at fresh = elim (Bool-cases (n == run)) [
  | inl e ↦
      let h : task_of run live ≡ none =
        subst (λ k. task_of k live ≡ none) ((==_iff n run).0 e) fresh in
      absurd (ground (arith, h, run_of-task id run live at))
  | inr e ↦ e
]

run_of-without :
    (id j : Text) (run : ℕ) (live : List (Text × ℕ))
    → IsSingle live
    → run_of id live ≡ some run
    → run_of j (without_run run live) ≡ (if same id j then none else run_of j live)
run_of-without id j run [] single at = cc at
run_of-without id j run ((t, n) ∷ live) (new, fresh, single) at = elim (Bool-cases (same t id)) [
  | inl e ↦
      let hit : n ≡ run = ground (arith, at, e) in
      let gone = without-absent run live (subst (λ k. task_of k live ≡ none) hit fresh) in
      ground (arith, gone, hit, new, e, ==_iff n run, same_iff t id, same_iff id j, same_iff t j)
  | inr e ↦
      let later : run_of id live ≡ some run = ground (arith, at, e) in
      let other : (n == run) ≡ false = run_of-apart id run n live later fresh in
      let rest = run_of-without id j run live single later in
      rw other (ground (arith, rest, e, same_iff t j, same_iff id j, same_iff t id))
]

without-none :
    (run : ℕ) (t : Text) (live : List (Text × ℕ))
    → run_of t live ≡ none
    → run_of t (without_run run live) ≡ none
without-none run t [] h = h
without-none run t ((k, n) ∷ live) h =
    let e : same k t ≡ false = ground (arith, h) in
    let rest = without-none run t live (ground (arith, h)) in ground (arith, rest, e)

without-fresh :
    (run m : ℕ) (live : List (Text × ℕ))
    → task_of m live ≡ none
    → task_of m (without_run run live) ≡ none
without-fresh run m [] h = h
without-fresh run m ((k, n) ∷ live) h =
    let e : (n == m) ≡ false = ground (arith, h) in
    let rest = without-fresh run m live (ground (arith, h)) in ground (arith, rest, e)

without-IsSingle :
    (run : ℕ) (live : List (Text × ℕ)) → IsSingle live → IsSingle (without_run run live)
without-IsSingle run [] h = tt
without-IsSingle run ((t, n) ∷ live) (new, fresh, single) = elim (Bool-cases (n == run)) [
  | inl e ↦ rw e (without-IsSingle run live single)
  | inr e ↦ rw e (
    without-none run t live new,
    without-fresh run n live fresh,
    without-IsSingle run live single,
  )
]

abbrev IsSound : Worker → Type 0
IsSound w = IsSingle w.live × ((id : Text) → find_run id w.cancels ≡ run_of id w.live)

Step-IsSound : {w w' : Worker} → Step w w' → IsSound w → IsSound w'
unfolding run_tracked run_untracked cancel_running_task
Step-IsSound {w} (tracked id run new fresh) (single, table) = (
  (new, fresh, single),
  λ j. find_run-track id j run w.cancels ∙ ap (λ o. if same id j then some run else o) (table j),
)
Step-IsSound {w} (untracked id run at) (single, table) = (
  without-IsSingle run w.live single,
  λ j.
      find_run-untrack id j w.cancels
      ∙ (ap (λ o. if same id j then none else o) (table j)
          ∙ sym (run_of-without id j run w.live single at)),
)
Step-IsSound {w} (signalled id) sound = sound

Reached-IsSound : {w : Worker} → Reached w → IsSound w
Reached-IsSound at_start = (tt, λ id. refl)
Reached-IsSound (then_step r s) = Step-IsSound s (Reached-IsSound r)

-- As long as a worker runs no task twice at a time, a signal for a task cancels the context of the live run
-- of this task and no other, and answers whether there is one.
pub signal_reaches :
    (w : Worker) (id : Text)
    → Reached w
    → let (found, w') = cancel_running_task id w in
      (found ≡ is_some (run_of id w.live))
      × (w'.cancelled ≡ cancelled_by (run_of id w.live) w.cancelled)
      × (w'.live ≡ w.live)
unfolding cancel_running_task
signal_reaches w id r =
    let table = (Reached-IsSound r).1 id in
    (ap is_some table, ap (λ o. cancelled_by o w.cancelled) table, refl)

-- When a task is run twice at a time, the end of the first run takes the entry of the second out of the
-- table: a signal finds no context to cancel, while the second run goes on.
pub second_run_lost :
    (w : Worker) (id : Text) (first second : ℕ)
    → first ≢ second
    → let w' = run_untracked id first (run_tracked id second (run_tracked id first w)) in
      (run_of id w'.live ≡ some second)
      × ((cancel_running_task id w').0 ≡ false)
      × ((cancel_running_task id w').1.cancelled ≡ w.cancelled)
unfolding run_tracked run_untracked cancel_running_task
second_run_lost w id first second apart =
    let gone : find_run id
          (untrack_cancel id (track_cancel id second (track_cancel id first w.cancels)))
        ≡ none =
      find_run-untrack id id (track_cancel id second (track_cancel id first w.cancels))
      ∙ ap
          (λ b.
            if b
            then none
            else find_run id (track_cancel id second (track_cancel id first w.cancels)))
          (same_refl id) in
    let other : (second == first) ≡ false = ground (arith, ==_iff second first, apart) in
    (rw other (rw (same_refl id) refl), ap is_some gone, ap (λ o. cancelled_by o w.cancelled) gone)
