-- ===== src/Mysql/Memory/Select.antt =====
-- Rows under their ids: the row of an id, the rows that pass a test, and the removal of rows.
use dispatchhub.Prelude.{
  ℕ, zero, suc, Text, Bool, true, false, Option, none, some, List, [], ◌∷◌, ◌≡◌, refl, ◌∙◌, same,
  same_iff, if◌then◌else◌, ◌||◌, ◌⊎◌, take, arith, inl, inr, Option-cases, Bool-cases, contains,
  All, Occurs, subst, sym, ap,
}
use dispatchhub.Redis.Memory.Table.{Table, lookup, without, lookup-without}

module _ {V : Type 0} where
  abbrev pub find : Table V → Text → Option V
  find l id = lookup [] id l

  abbrev pub put : Text → Option V → Table V → Table V
  put id none l = l
  put id (some v) l = ([], id, v) ∷ without [] id l

  abbrev pub keep_one : (V → Bool) → Option V → List V → List V
  keep_one test none rest = rest
  keep_one test (some v) rest = if test v then v ∷ rest else rest

  abbrev pub keep_if : (V → Bool) → List Text → Table V → List V
  keep_if test [] l = []
  keep_if test (id ∷ ids) l = keep_one test (find l id) (keep_if test ids l)

  pub find-put :
      (l : Table V) (id : Text) (o : Option V) (j : Text)
      → (o ≡ none → find l id ≡ none)
      → find (put id o l) j ≡ (if same id j then o else find l j)
  unfolding lookup same
  find-put l id none j h = ground (arith, same_iff id j)
  find-put l id (some v) j h = ground (arith, lookup-without [] id [] j l)

  pub find-without :
      (l : Table V) (id j : Text)
      → find (without [] id l) j ≡ (if same id j then none else find l j)
  unfolding lookup same
  find-without l id j = ground (arith, lookup-without [] id [] j l)

  abbrev passes : (V → Bool) → Option V → Bool
  passes test none = false
  passes test (some v) = test v

  -- The ids whose rows pass the test.
  abbrev pub ids_where : (V → Bool) → List Text → Table V → List Text
  ids_where test [] l = []
  ids_where test (id ∷ ids) l =
      let rest = ids_where test ids l in if passes test (find l id) then id ∷ rest else rest

  abbrev pub remove : List Text → Table V → Table V
  remove [] l = l
  remove (id ∷ ids) l = remove ids (without [] id l)

  find-remove :
      (ids : List Text) (l : Table V) (j : Text)
      → find (remove ids l) j ≡ (if contains j ids then none else find l j)
  unfolding contains
  find-remove [] l j = refl
  find-remove (id ∷ ids) l j =
      ground (arith, find-remove ids (without [] id l) j, find-without l id j)

  contains-take :
      (n : ℕ) (test : V → Bool) (ids : List Text) (l : Table V) (j : Text)
      → contains j (take n (ids_where test ids l)) ≡ true
      → passes test (find l j) ≡ true
  unfolding contains
  contains-take zero test ids l j h = cc
  contains-take (suc n) test [] l j h = cc
  contains-take (suc n) test (id ∷ ids) l j h = elim (Bool-cases (passes test (find l id))) [
    | inl e ↦ hit_or_rest id j _ (rw e at h) e (contains-take n test ids l j)
    | inr e ↦ contains-take (suc n) test ids l j (rw e at h)
  ]
    where
      hit_or_rest :
          (id j : Text) (rest : List Text)
          → (same id j || contains j rest) ≡ true
          → passes test (find l id) ≡ true
          → (contains j rest ≡ true → passes test (find l j) ≡ true)
          → passes test (find l j) ≡ true
      hit_or_rest id j rest h e later = ground (arith, same_iff id j, later)

  -- A removal of rows that pass a test keeps each row, or removes one that passes it.
  pub find-sweep :
      (n : ℕ) (test : V → Bool) (ids : List Text) (l : Table V) (j : Text)
      → (find (remove (take n (ids_where test ids l)) l) j ≡ find l j)
        ⊎ ((v : V) × (find l j ≡ some v)
            × (test v ≡ true)
            × (find (remove (take n (ids_where test ids l)) l) j ≡ none))
  find-sweep n test ids l j =
      let gone = take n (ids_where test ids l) in
      elim (Bool-cases (contains j gone)) [
        | inl e ↦ elim (Option-cases (find l j)) [
          | inl f ↦ inl (find-remove gone l j ∙ rw (e, f) refl)
          | inr (v, f) ↦
              inr
                (v, f, (rw f at (contains-take n test ids l j e)), find-remove gone l j ∙ rw e refl)
        ]
        | inr e ↦ inl (find-remove gone l j ∙ rw e refl)
      ]

  keep_one_sound :
      (test : V → Bool) (o : Option V) (rest : List V)
      → All (λ v. test v ≡ true) rest
      → All (λ v. test v ≡ true) (keep_one test o rest)
  keep_one_sound test none rest h = h
  keep_one_sound test (some v) rest h = elim (Bool-cases (test v)) [
    | inl t ↦ rw (t, All) (t, h)
    | inr t ↦ rw (t, All) h
  ]

  pub keep_if_sound :
      (test : V → Bool) (ids : List Text) (l : Table V)
      → All (λ v. test v ≡ true) (keep_if test ids l)
  keep_if_sound test [] l = tt
  keep_if_sound test (id ∷ ids) l = keep_one_sound test (find l id) _ (keep_if_sound test ids l)

  Occurs-keep_one :
      (test : V → Bool) (o : Option V) (v : V) (rest : List V)
      → o ≡ some v
      → test v ≡ true
      → Occurs v (keep_one test o rest)
  Occurs-keep_one test o v rest e t =
      subst (λ x. Occurs v (keep_one test x rest)) (sym e) (rw t (inl refl))

  Occurs-keep_one_rest :
      (test : V → Bool) (o : Option V) (v : V) (rest : List V)
      → Occurs v rest
      → Occurs v (keep_one test o rest)
  Occurs-keep_one_rest test none v rest h = h
  Occurs-keep_one_rest test (some w) v rest h = elim (Bool-cases (test w)) [
    | inl e ↦ rw e (inr h)
    | inr e ↦ rw e h
  ]

  pub Occurs-keep_if :
      (test : V → Bool) (ids : List Text) (l : Table V) (id : Text) (v : V)
      → Occurs id ids
      → find l id ≡ some v
      → test v ≡ true
      → Occurs v (keep_if test ids l)
  Occurs-keep_if test [] l id v h e t = elim h [ ]
  Occurs-keep_if test (x ∷ ids) l id v (inl here) e t =
      Occurs-keep_one test (find l x) v _ (ap (find l) here ∙ e) t
  Occurs-keep_if test (x ∷ ids) l id v (inr there) e t =
      Occurs-keep_one_rest test (find l x) v _ (Occurs-keep_if test ids l id v there e t)
