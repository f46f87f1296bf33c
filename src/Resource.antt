-- ===== src/Resource.antt =====
-- pkg/core: resources, and the interface of a storage module with what a client relies on.
use neon_oss.Base.{ℕ, List, String, ◌≡◌, ◌≢◌, Result, ok}

-- The type `Resource`. A byte is a number, a duration a number of nanoseconds.
pub record Resource : Type 0 where
  pub data_array : List (List ℕ)
  pub ttl : ℕ

-- The interface `StoreStorageModule` (and `Store`): each call may change the state also when it
-- returns an error.
pub record Storage (State : Type 0) : Type 0 where
  pub load_resource : String → State → Result Resource
  pub store_resource : String → Resource → State → Result (Unit {0}) × State

-- What the clients of a storage rely on.
pub record StorageLaws {State : Type 0} (s : Storage State) : Type 0 where
  pub load-store_self :
      (name : String) (r : Resource) (st : State)
      → (s.store_resource name r st).0 ≡ ok tt
      → s.load_resource name (s.store_resource name r st).1 ≡ ok r
  pub load-store_ne :
      (name other : String) (r : Resource) (st : State)
      → name ≢ other
      → s.load_resource other (s.store_resource name r st).1 ≡ s.load_resource other st
