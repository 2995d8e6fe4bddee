-- ===== src/Tests/Leaders.antt =====
-- Two schedulers: the session of the first expires while it leads, and the second takes over.
use dispatchhub.Prelude.{ℕ, ◌+◌, ◌≡◌, refl, true, false, arith}
use dispatchhub.Election.{campaigning, elected, leading, System, with_at, Move, Step, Reached, new}
use dispatchhub.Election.Invariant.{leads, owed}
use dispatchhub.Election.Leaders.{callbacks_alternate, one_live_leader}

-- Scheduler 0 has won with key 0, and leads; scheduler 1 waits.
abbrev won_by_0 : System
won_by_0 = record {
  keys = with_at (with_at (λ k. false) 0 true) 1 true;
  next = 2;
  elector =
      with_at
        (with_at
          (with_at (with_at (λ i. new) 0 (record new { phase = campaigning 0 })) 1
            (record new { phase = campaigning 1 }))
          0 (record new { phase = elected 0; is_leader = true }))
        0 (record new { phase = leading 0; is_leader = true; started = 1 });
}

won_by_0-Reached : Reached won_by_0
won_by_0-Reached =
    Reached.then_step
      (Reached.then_step
        (Reached.then_step (Reached.then_step Reached.at_start (Step.enter 0 refl))
          (Step.enter 1 refl))
        (Step.move 0 (Move.win _ 0 refl (λ r h. absurd (ground (arith, h))))))
      (Step.move 0 (Move.start _ 0 refl))

callbacks_alternate_example :
    let e = won_by_0.elector 0 in
    (e.is_leader ≡ leads e.phase) × (e.started ≡ e.stopped + owed e.phase)
callbacks_alternate_example = callbacks_alternate won_by_0 0 won_by_0-Reached

one_live_leader_example : ◌≡◌ {A = ℕ} 0 0
one_live_leader_example =
    one_live_leader won_by_0 0 0 0 0 won_by_0-Reached (refl, refl, refl) (refl, refl, refl)

-- When the key of scheduler 0 goes before its lease is noted as lost, scheduler 1 wins and isLeader is
-- set in both.
two_lead :
    (s : System) × Reached s × ((s.elector 0).is_leader ≡ true) × ((s.elector 1).is_leader ≡ true)
two_lead = (
  _,
  Reached.then_step (Reached.then_step won_by_0-Reached (Step.expire 0))
      (Step.move 1 (Move.win _ 1 refl (λ r h. let z : r ≡ 0 = omega (arith, h) in rw z refl))),
  refl,
  refl,
)
