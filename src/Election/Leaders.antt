-- ===== src/Election/Leaders.antt =====
-- Who leads, and in which order the callbacks are called.
use dispatchhub.Prelude.{
  ℕ, ◌+◌, ◌≡◌, refl, ap, sym, ◌∙◌, inl, inr, Bool, true, some, ◌==◌, ltb, ltb→lt, arith, Bool-cases,
}
use dispatchhub.Election.{
  Phase, outside, campaigning, elected, leading, losing, stopping, resigning, Elector, System,
  with_at, Move, Step, Reached,
}
use dispatchhub.Election.Invariant.{rev_of, won, leads, owed, Reached-IsSound}

-- What an elector keeps of its own.
abbrev IsTidy : Elector → Type 0
IsTidy e = (e.is_leader ≡ leads e.phase) × (e.started ≡ e.stopped + owed e.phase)

Move-IsTidy : {keys : ℕ → Bool} {e f : Elector} → Move keys e f → IsTidy e → IsTidy f
Move-IsTidy (Move.give_up e k p) (l, n) = (l ∙ ap leads p, n ∙ ap (λ x. e.stopped + owed x) p)
Move-IsTidy (Move.win e k p low) (l, n) = (refl, n ∙ ap (λ x. e.stopped + owed x) p)
Move-IsTidy (Move.start e k p) (l, n) = let o = ap owed p in (l ∙ ap leads p, omega (arith, n, o))
Move-IsTidy (Move.lose e k p) (l, n) = (l ∙ ap leads p, n ∙ ap (λ x. e.stopped + owed x) p)
Move-IsTidy (Move.step_down e k p) (l, n) = (refl, n ∙ ap (λ x. e.stopped + owed x) p)
Move-IsTidy (Move.stop e k p) (l, n) = let o = ap owed p in (l ∙ ap leads p, omega (arith, n, o))
Move-IsTidy (Move.leave e k p) (l, n) = (l ∙ ap leads p, n ∙ ap (λ x. e.stopped + owed x) p)

with_at-IsTidy :
    (f : ℕ → Elector) (i : ℕ) (e : Elector)
    → ((j : ℕ) → IsTidy (f j))
    → IsTidy e
    → (j : ℕ) → IsTidy (with_at f i e j)
with_at-IsTidy f i e all here j = elim (Bool-cases (i == j)) [
  | inl at ↦ rw at here
  | inr off ↦ rw off (all j)
]

Step-IsTidy :
    {s t : System} → Step s t → ((j : ℕ) → IsTidy (s.elector j)) → (j : ℕ) → IsTidy (t.elector j)
Step-IsTidy {s} (Step.move i {e} mv) all = with_at-IsTidy s.elector i e all (Move-IsTidy mv (all i))
Step-IsTidy {s} (Step.enter i p) all =
    with_at-IsTidy s.elector i (record (s.elector i) { phase = campaigning s.next }) all
      (let (l, n) = all i in (l ∙ ap leads p, n ∙ ap (λ x. (s.elector i).stopped + owed x) p))
Step-IsTidy {s} (Step.expire k) all = all

Reached-IsTidy : {s : System} → Reached s → (j : ℕ) → IsTidy (s.elector j)
Reached-IsTidy Reached.at_start j = (refl, omega arith)
Reached-IsTidy (Reached.then_step r st) j = Step-IsTidy st (Reached-IsTidy r) j

-- In every reachable state isLeader is set exactly from the won campaign to the loss of the lease, and
-- OnStartedLeading has been called once more than OnStoppedLeading between the two calls of one
-- leadership, and as often otherwise.
pub callbacks_alternate :
    (s : System) (i : ℕ)
    → Reached s
    → let e = s.elector i in (e.is_leader ≡ leads e.phase) × (e.started ≡ e.stopped + owed e.phase)
callbacks_alternate s i r = Reached-IsTidy r i

won-leads : (x : Phase) (k : ℕ) → leads x ≡ true → rev_of x ≡ some k → won x ≡ some k
won-leads outside k h e = cc
won-leads (campaigning l) k h e = cc
won-leads (elected l) k h e = e
won-leads (leading l) k h e = e
won-leads (losing l) k h e = e
won-leads (stopping l) k h e = e
won-leads (resigning l) k h e = e

-- The scheduler has isLeader set, and the key that it won with is still there.
abbrev pub LeadsWith : System → ℕ → ℕ → Type 0
LeadsWith s i k =
    ((s.elector i).is_leader ≡ true) × (rev_of (s.elector i).phase ≡ some k) × (s.keys k ≡ true)

-- Two schedulers never have isLeader set while the keys of both are there.
pub one_live_leader :
    (s : System) (i j k l : ℕ) → Reached s → LeadsWith s i k → LeadsWith s j l → i ≡ j
one_live_leader s i j k l r (lead, rev, alive) (lead', rev', alive') =
    let sound = Reached-IsSound r in
    let w = won-leads (s.elector i).phase k (sym (Reached-IsTidy r i).0 ∙ lead) rev in
    let w' = won-leads (s.elector j).phase l (sym (Reached-IsTidy r j).0 ∙ lead') rev' in
    elim (Bool-cases (ltb k l)) [
      | inl lt ↦ absurd (cc (sound.first j l w' k (ltb→lt k l lt), alive))
      | inr ge ↦ elim (Bool-cases (ltb l k)) [
        | inl lt ↦ absurd (cc (sound.first i k w l (ltb→lt l k lt), alive'))
        | inr ge' ↦ let e : k ≡ l = ground arith in sound.own i j l (rw e at rev) rev'
      ]
    ]
