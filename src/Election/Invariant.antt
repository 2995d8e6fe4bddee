-- ===== src/Election/Invariant.antt =====
-- What every reachable state has.
use dispatchhub.Prelude.{
  ℕ, suc, ◌≤◌, ◌<◌, ◌≡◌, refl, ap, subst, ◌∙◌, ◌⊎◌, inl, inr, Bool, true, false, Option, none, some,
  ◌==◌, ==_iff, arith, Bool-cases,
}
use dispatchhub.Election.{
  Phase, outside, campaigning, elected, leading, losing, stopping, resigning, Elector, System,
  with_at, Move, Step, init, Reached,
}

-- The revision of the key that the scheduler has put.
abbrev pub rev_of : Phase → Option ℕ
rev_of outside = none
rev_of (campaigning k) = some k
rev_of (elected k) = some k
rev_of (leading k) = some k
rev_of (losing k) = some k
rev_of (stopping k) = some k
rev_of (resigning k) = some k

-- The revision that it has won with.
abbrev pub won : Phase → Option ℕ
won outside = none
won (campaigning k) = none
won (elected k) = some k
won (leading k) = some k
won (losing k) = some k
won (stopping k) = some k
won (resigning k) = some k

abbrev pub leads : Phase → Bool
leads outside = false
leads (campaigning k) = false
leads (elected k) = true
leads (leading k) = true
leads (losing k) = true
leads (stopping k) = false
leads (resigning k) = false

-- How many calls of OnStartedLeading have no call of OnStoppedLeading yet.
abbrev pub owed : Phase → ℕ
owed outside = 0
owed (campaigning k) = 0
owed (elected k) = 0
owed (leading k) = 1
owed (losing k) = 1
owed (stopping k) = 1
owed (resigning k) = 0

pub record IsSound (s : System) : Type 0 where
  pub fresh : (k : ℕ) → s.next ≤ k → s.keys k ≡ false
  pub below : (i k : ℕ) → rev_of (s.elector i).phase ≡ some k → k < s.next
  pub own :
      (i j k : ℕ)
      → rev_of (s.elector i).phase ≡ some k
      → rev_of (s.elector j).phase ≡ some k
      → i ≡ j
  pub first : (i k : ℕ) → won (s.elector i).phase ≡ some k → (r : ℕ) → r < k → s.keys r ≡ false

-- What a move keeps of the scheduler that makes it.
abbrev Keeps : (ℕ → Bool) → Elector → Elector → Type 0
Keeps keys e f =
    ((k : ℕ) → rev_of f.phase ≡ some k → rev_of e.phase ≡ some k)
    × ((k : ℕ) → won f.phase ≡ some k → (won e.phase ≡ some k) ⊎ ((r : ℕ) → r < k → keys r ≡ false))

Move-Keeps : {keys : ℕ → Bool} {e f : Elector} → Move keys e f → Keeps keys e f
Move-Keeps (Move.give_up e k p) = ((λ j h. cc), λ j h. cc)
Move-Keeps (Move.win e k p lowest) =
    ((λ j h. ap rev_of p ∙ h), λ j h. inr (λ r lt. lowest r (ground arith)))
Move-Keeps (Move.start e k p) = ((λ j h. ap rev_of p ∙ h), λ j h. inl (ap won p ∙ h))
Move-Keeps (Move.lose e k p) = ((λ j h. ap rev_of p ∙ h), λ j h. inl (ap won p ∙ h))
Move-Keeps (Move.step_down e k p) = ((λ j h. ap rev_of p ∙ h), λ j h. inl (ap won p ∙ h))
Move-Keeps (Move.stop e k p) = ((λ j h. ap rev_of p ∙ h), λ j h. inl (ap won p ∙ h))
Move-Keeps (Move.leave e k p) = ((λ j h. cc), λ j h. cc)

module _ (s : System) (sound : IsSound s) where
  open sound use {fresh, below, own, first}

  module _ (i : ℕ) (e : Elector) (kept : Keeps s.keys (s.elector i) e) where
    rev_before :
        (j k : ℕ)
        → rev_of (with_at s.elector i e j).phase ≡ some k
        → rev_of (s.elector j).phase ≡ some k
    rev_before j k h = elim (Bool-cases (i == j)) [
      | inl at ↦
          subst (λ x. rev_of (s.elector x).phase ≡ some k) ((==_iff i j).0 at)
            (kept.0 k (rw at at h))
      | inr off ↦ rw off at h
    ]

    lowest_after :
        (j k : ℕ)
        → won (with_at s.elector i e j).phase ≡ some k
        → (r : ℕ) → r < k
        → s.keys r ≡ false
    lowest_after j k h = elim (Bool-cases (i == j)) [
      | inl at ↦ elim (kept.1 k (rw at at h)) [
        | inl before ↦ first i k before
        | inr lowest ↦ lowest
      ]
      | inr off ↦ first j k (rw off at h)
    ]

    move-IsSound : IsSound (record s { elector = with_at s.elector i e })
    move-IsSound = record {
      fresh = fresh;
      below = λ j k h. below j k (rev_before j k h);
      own = λ j l k h h'. own j l k (rev_before j k h) (rev_before l k h');
      first = lowest_after;
    }

  module _ (i : ℕ) where
    abbrev entered : Elector
    entered = record (s.elector i) { phase = campaigning s.next }

    -- A key after the entry is the new one of that scheduler, or an old one of the same owner.
    rev_entered :
        (j k : ℕ)
        → rev_of (with_at s.elector i entered j).phase ≡ some k
        → ((i ≡ j) × (k ≡ s.next)) ⊎ ((rev_of (s.elector j).phase ≡ some k) × (k < s.next))
    rev_entered j k h = elim (Bool-cases (i == j)) [
      | inl at ↦ let e : some s.next ≡ some k = rw at at h in inl ((==_iff i j).0 at, ground arith)
      | inr off ↦ let e = rw off at h in inr (e, below j k e)
    ]

    won-entered :
        (j k : ℕ)
        → won (with_at s.elector i entered j).phase ≡ some k
        → won (s.elector j).phase ≡ some k
    won-entered j k h = elim (Bool-cases (i == j)) [
      | inl at ↦ let e : none ≡ some k = rw at at h in cc
      | inr off ↦ rw off at h
    ]

    won-rev : (x : Phase) (k : ℕ) → won x ≡ some k → rev_of x ≡ some k
    won-rev outside k h = cc
    won-rev (campaigning l) k h = cc
    won-rev (elected l) k h = h
    won-rev (leading l) k h = h
    won-rev (losing l) k h = h
    won-rev (stopping l) k h = h
    won-rev (resigning l) k h = h

    enter-IsSound : IsSound (record s {
      keys = with_at s.keys s.next true;
      next = suc s.next;
      elector = with_at s.elector i entered;
    })
    enter-IsSound = record {
      fresh = λ k h. ground (arith, fresh k, ==_iff s.next k);
      below = λ j k h. ground (arith, rev_entered j k h);
      own = λ j l k h h'. ground (arith, rev_entered j k h, rev_entered l k h', own j l k);
      first = λ j k h r lt. ground (
        arith,
        first j k (won-entered j k h) r,
        below j k (won-rev (s.elector j).phase k (won-entered j k h)),
        ==_iff s.next r,
      );
    }

  expire-IsSound : (k : ℕ) → IsSound (record s { keys = with_at s.keys k false })
  expire-IsSound k = record {
    fresh = λ j h. ground (arith, fresh j);
    below = below;
    own = own;
    first = λ j l h r lt. ground (arith, first j l h r);
  }

Step-IsSound : {s t : System} → Step s t → IsSound s → IsSound t
Step-IsSound {s} (Step.move i {e} mv) h = move-IsSound s h i e (Move-Keeps mv)
Step-IsSound {s} (Step.enter i p) h = enter-IsSound s h i
Step-IsSound {s} (Step.expire k) h = expire-IsSound s h k

init-IsSound : IsSound init
init-IsSound = record {
  fresh = λ k h. refl;
  below = λ i k h. cc;
  own = λ i j k h h'. cc;
  first = λ i k h r lt. refl;
}

pub Reached-IsSound : {s : System} → Reached s → IsSound s
Reached-IsSound Reached.at_start = init-IsSound
Reached-IsSound (Reached.then_step r st) = Step-IsSound st (Reached-IsSound r)
