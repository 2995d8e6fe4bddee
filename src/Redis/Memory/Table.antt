-- ===== src/Redis/Memory/Table.antt =====
-- Tables under two keys, as association lists: a later entry hides an earlier one.
use dispatchhub.Prelude.{
  Text, ◌&&◌, Option, none, some, List, [], ◌∷◌, ◌≡◌, same, same_iff, if◌then◌else◌, arith, Occurs,
}

abbrev pub Table : Type 0 → Type 0
Table V = List (Text × Text × V)

module _ {V : Type 0} where
  unfoldable pub lookup : Text → Text → Table V → Option V
  lookup k m [] = none
  lookup k m ((k', m', v) ∷ l) = if same k' k && same m' m then some v else lookup k m l

  unfoldable pub without : Text → Text → Table V → Table V
  without k m [] = []
  without k m ((k', m', v) ∷ l) =
      let rest = without k m l in if same k' k && same m' m then rest else (k', m', v) ∷ rest

  -- The second keys of the entries under `k`.
  unfoldable pub members : Text → Table V → List Text
  members k [] = []
  members k ((k', m', v) ∷ l) = let rest = members k l in if same k' k then m' ∷ rest else rest

  pub lookup-without :
      (k m k' m' : Text) (l : Table V)
      → lookup k' m' (without k m l) ≡ (if same k k' && same m m' then none else lookup k' m' l)
  unfolding lookup without
  lookup-without k m k' m' [] = ground arith
  lookup-without k m k' m' ((i, j, v) ∷ l) = ground (
    arith,
    lookup-without k m k' m' l,
    same_iff k k',
    same_iff m m',
    same_iff i k,
    same_iff j m,
    same_iff i k',
    same_iff j m',
  )

  pub Occurs-members :
      (k m : Text) (v : V) (l : Table V) → lookup k m l ≡ some v → Occurs m (members k l)
  unfolding lookup members
  Occurs-members k m v [] h = ground arith
  Occurs-members k m v ((i, j, w) ∷ l) h =
      ground (arith, same_iff i k, same_iff j m, Occurs-members k m v l)
