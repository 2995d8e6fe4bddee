-- ===== src/Registry/Interface.antt =====
-- The calls of etcd that the registry makes, as its documentation describes them, and a store in memory
-- that behaves so.
use dispatchhub.Prelude.{
  ℕ, ◌≡◌, Text, Bool, true, false, Option, none, some, List, same, if◌then◌else◌,
}

pub record Etcd : Type 1 where
  pub Store : Type 0
  -- whether the lease has been granted and has neither expired nor been revoked
  pub is_live : Store → ℕ → Bool
  -- a new lease
  pub grant : Store → ℕ × Store
  -- a put under a lease; `none` if there is no such lease
  pub put : Store → Text → Text → ℕ → Option Store
  pub get : Store → Text → Option Text
  -- the keys with a prefix, and their values
  pub range : Store → Text → List (Text × Text)
  -- a lease goes, with its keys; `none` if there is no such lease
  pub revoke : Store → ℕ → Option Store
  pub delete : Store → Text → Store

module _ (e : Etcd) where
  open e use {Store, is_live, grant, put, get, revoke, delete}

  pub record IsEtcd : Type 0 where
    pub live-grant : (s : Store) → is_live (grant s).1 (grant s).0 ≡ true
    pub get-grant : (s : Store) (k : Text) → get (grant s).1 k ≡ get s k
    pub put_live :
        (s : Store) (k v : Text) (l : ℕ)
        → is_live s l ≡ true
        → (s' : Store) × (put s k v l ≡ some s')
    pub put_dead : (s : Store) (k v : Text) (l : ℕ) → is_live s l ≡ false → put s k v l ≡ none
    pub get-put :
        (s : Store) (k v : Text) (l : ℕ) (s' : Store) (j : Text)
        → put s k v l ≡ some s'
        → get s' j ≡ (if same k j then some v else get s j)
    pub live-put :
        (s : Store) (k v : Text) (l : ℕ) (s' : Store) (n : ℕ)
        → put s k v l ≡ some s'
        → is_live s' n ≡ is_live s n
    pub get-delete :
        (s : Store) (k j : Text) → get (delete s k) j ≡ (if same k j then none else get s j)
    pub live-revoke : (s s' : Store) (l : ℕ) → revoke s l ≡ some s' → is_live s' l ≡ false
