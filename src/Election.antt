-- ===== src/Election.antt =====
-- internal/scheduler/infrastructure/election/election.go: some schedulers that run the loop of Run over
-- one etcd. What etcd keeps of an election is the set of its keys, by their creation revision; a key
-- goes with its session. Campaign of etcd's library is documented to put a key of its own and to return
-- once no older key is left.
pub mod Invariant
pub mod Leaders
use dispatchhub.Prelude.{
  ℕ, suc, ◌<◌, ◌≡◌, Bool, true, false, Option, none, some, ◌==◌, if◌then◌else◌,
}

-- Where `campaign` stands. The number is the revision of the scheduler's key.
pub data Phase : Type 0 where
  -- between two calls of `campaign`, or before its session has a key
  outside : Phase
  -- in election.Campaign
  campaigning : ℕ → Phase
  -- isLeader is set, and OnStartedLeading not yet called
  elected : ℕ → Phase
  -- from the call of OnStartedLeading on, until leaderCtx is done
  leading : ℕ → Phase
  -- leaderCtx is done, and isLeader still set
  losing : ℕ → Phase
  -- isLeader is cleared, and OnStoppedLeading not yet called
  stopping : ℕ → Phase
  -- in election.Resign
  resigning : ℕ → Phase

-- `started` and `stopped` count the calls of the two callbacks.
pub record Elector : Type 0 where
  pub phase : Phase
  pub is_leader : Bool
  pub started : ℕ
  pub stopped : ℕ

-- `next` is the revision that the next key gets.
pub record System : Type 0 where
  pub keys : ℕ → Bool
  pub next : ℕ
  pub elector : ℕ → Elector

abbrev pub with_at {ℓ} : {A : Type ℓ} → (ℕ → A) → ℕ → A → ℕ → A
with_at f i x j = if i == j then x else f j

-- One step of one scheduler that puts or removes no key.
pub data Move (keys : ℕ → Bool) : Elector → Elector → Type 0 where
  -- Campaign fails, and Run tries again
  give_up :
      (e : Elector) (k : ℕ) → e.phase ≡ campaigning k → Move keys e (record e { phase = outside })
  win :
      (e : Elector) (k : ℕ)
      → e.phase ≡ campaigning k
      → ((r : ℕ) → r < k → keys r ≡ false)
      → Move keys e (record e { phase = elected k; is_leader = true })
  start :
      (e : Elector) (k : ℕ)
      → e.phase ≡ elected k
      → Move keys e (record e { phase = leading k; started = suc e.started })
  -- the session is done, or the process ends
  lose : (e : Elector) (k : ℕ) → e.phase ≡ leading k → Move keys e (record e { phase = losing k })
  step_down :
      (e : Elector) (k : ℕ)
      → e.phase ≡ losing k
      → Move keys e (record e { phase = stopping k; is_leader = false })
  stop :
      (e : Elector) (k : ℕ)
      → e.phase ≡ stopping k
      → Move keys e (record e { phase = resigning k; stopped = suc e.stopped })
  leave : (e : Elector) (k : ℕ) → e.phase ≡ resigning k → Move keys e (record e { phase = outside })

pub data Step (s : System) : System → Type 0 where
  move :
      (i : ℕ) {e : Elector}
      → Move s.keys (s.elector i) e
      → Step s (record s { elector = with_at s.elector i e })
  -- Campaign puts its key
  enter :
      (i : ℕ)
      → (s.elector i).phase ≡ outside
      → Step s (record {
        keys = with_at s.keys s.next true;
        next = suc s.next;
        elector = with_at s.elector i (record (s.elector i) { phase = campaigning s.next });
      })
  -- a key goes, since its session expires or is closed, or its owner resigns
  expire : (k : ℕ) → Step s (record s { keys = with_at s.keys k false })

abbrev pub new : Elector
new = record { phase = outside; is_leader = false; started = 0; stopped = 0 }

abbrev pub init : System
init = record { keys = λ k. false; next = 0; elector = λ i. new }

pub data Reached : System → Type 0 where
  at_start : Reached init
  then_step : {s t : System} → Reached s → Step s t → Reached t
