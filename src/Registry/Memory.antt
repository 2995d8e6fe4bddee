-- ===== src/Registry/Memory.antt =====
-- A key-value store in memory with leases, which meets the laws of Registry.Interface: the store of the
-- examples.
use dispatchhub.Prelude.{
  ℕ, suc, ◌≡◌, refl, ap, ◌∙◌, Text, Bool, true, false, Option, none, some, List, [], ◌∷◌, same,
  same_iff, starts_with, ◌==◌, ==_iff, if◌then◌else◌, arith,
}
use dispatchhub.Registry.Interface.{Etcd, IsEtcd}

-- The next lease, the leases that stand, and the keys, each with its value and lease.
pub record Memory : Type 0 where
  pub next : ℕ
  pub live : ℕ → Bool
  pub keys : List (Text × Text × ℕ)

abbrev find_key : List (Text × Text × ℕ) → Text → Option Text
find_key [] j = none
find_key ((k, v, l) ∷ keys) j = if same k j then some v else find_key keys j

abbrev without_key : List (Text × Text × ℕ) → Text → List (Text × Text × ℕ)
without_key [] j = []
without_key ((k, v, l) ∷ keys) j =
    let rest = without_key keys j in if same k j then rest else (k, v, l) ∷ rest

abbrev of_lease : List (Text × Text × ℕ) → ℕ → List (Text × Text × ℕ)
of_lease [] n = []
of_lease ((k, v, l) ∷ keys) n =
    let rest = of_lease keys n in if l == n then rest else (k, v, l) ∷ rest

abbrev with_prefix : List (Text × Text × ℕ) → Text → List (Text × Text)
with_prefix [] p = []
with_prefix ((k, v, l) ∷ keys) p =
    let rest = with_prefix keys p in if starts_with p k then (k, v) ∷ rest else rest

abbrev set_live : ℕ → Bool → (ℕ → Bool) → ℕ → Bool
set_live n b live m = if n == m then b else live m

abbrev pub memory : Etcd
memory = record {
  Store = Memory;
  is_live = λ s. s.live;
  grant = λ s.
      (s.next, record { next = suc s.next; live = set_live s.next true s.live; keys = s.keys });
  put = λ s k v l.
      if s.live l
      then some (record { next = s.next; live = s.live; keys = (k, v, l) ∷ without_key s.keys k })
      else none;
  get = λ s. find_key s.keys;
  range = λ s. with_prefix s.keys;
  revoke = λ s l.
      if s.live l
      then some (record { next = s.next; live = set_live l false s.live; keys = of_lease s.keys l })
      else none;
  delete = λ s k. record { next = s.next; live = s.live; keys = without_key s.keys k };
}

find_key-without :
    (keys : List (Text × Text × ℕ)) (k j : Text)
    → find_key (without_key keys k) j ≡ (if same k j then none else find_key keys j)
find_key-without [] k j = ground arith
find_key-without ((i, v, l) ∷ keys) k j =
    ground (arith, find_key-without keys k j, same_iff i k, same_iff i j, same_iff k j)

put_done :
    (s : Memory) (k v : Text) (l : ℕ) (s' : Memory)
    → memory.put s k v l ≡ some s'
    → s' ≡ record { next = s.next; live = s.live; keys = (k, v, l) ∷ without_key s.keys k }
put_done s k v l s' p = ground (arith, p)

revoke_done :
    (s : Memory) (l : ℕ) (s' : Memory)
    → memory.revoke s l ≡ some s'
    → s'.live ≡ set_live l false s.live
revoke_done s l s' p = ground (arith, p)

set_live-same : (n : ℕ) (b : Bool) (live : ℕ → Bool) → set_live n b live n ≡ b
set_live-same n b live = ground (arith, ==_iff n n)

find_key-put :
    (keys : List (Text × Text × ℕ)) (k v : Text) (l : ℕ) (j : Text)
    → find_key ((k, v, l) ∷ without_key keys k) j ≡ (if same k j then some v else find_key keys j)
find_key-put keys k v l j = ground (arith, find_key-without keys k j)

put_live :
    (s : Memory) (k v : Text) (l : ℕ)
    → s.live l ≡ true
    → memory.put s k v l
      ≡ some (record { next = s.next; live = s.live; keys = (k, v, l) ∷ without_key s.keys k })
put_live s k v l live = rw live refl

pub memory-IsEtcd : IsEtcd memory
memory-IsEtcd = record {
  live-grant = λ s. set_live-same s.next true s.live;
  get-grant = λ s k. refl;
  put_live = λ s k v l live. (_, put_live s k v l live);
  put_dead = λ s k v l dead. rw dead refl;
  get-put = λ s k v l s' j p.
      ap (λ x. find_key x.keys j) (put_done s k v l s' p) ∙ find_key-put s.keys k v l j;
  live-put = λ s k v l s' n p. ap (λ x. x.live n) (put_done s k v l s' p);
  get-delete = λ s k j. find_key-without s.keys k j;
  live-revoke = λ s s' l p. ap (λ f. f l) (revoke_done s l s' p) ∙ set_live-same l false s.live;
}
