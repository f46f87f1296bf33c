-- ===== src/Parsers/Laws.antt =====
-- What a successful parse has done to the storage.
use neon_oss.Base.{false, Bool, true, ℕ, List, ap, arith, ◌≡◌, Dict, Result, String, ok}
use neon_oss.Exec.{bind-eq-ok, wrapping-eq-ok}
use neon_oss.Resource.{Resource, StorageLaws}
use neon_oss.Values.{Value, Fields}
use neon_oss.Parsers.{
  raw_fetch, raw_store, fetch_source, execute_data, JsonConfig, Surroundings, Services, fetch,
  store, Source, source_of, lift, raw_parse,
}

module _ {World Stored : Type 0} (services : Services World Stored)
    (laws : StorageLaws services.storage) where
  -- A resource of the configured source was fetched, and the storage now has it under its name.
  pub record Fetched (bad_name bad_provider : String) (option : Dict (Dict Value))
      (before after : Surroundings World Stored) : Type 0 where
    pub source : Source
    pub resource : Resource
    pub chosen : source_of bad_name bad_provider option ≡ ok source
    pub fetched :
        (services.fetch source.name source.provider source.config before.world).0 ≡ ok resource
    pub loads : services.storage.load_resource source.name after.stored ≡ ok resource

  lift-eq-ok :
      {S A : Type 0} (r : Result A) (s s' : S) (a : A)
      → lift r s ≡ (ok a, s')
      → (r ≡ ok a) × (s ≡ s')
  unfolding lift
  lift-eq-ok r s s' a h = ground arith

  store-loads :
      (name : String) (r : Resource) (s s' : Surroundings World Stored)
      → store services name r s ≡ (ok tt, s')
      → services.storage.load_resource name s'.stored ≡ ok r
  unfolding store
  store-loads name r s s' h =
      let stored : (services.storage.store_resource name r s.stored).0 ≡ ok tt =
        ap (λ (p : Result (Unit {0}) × Surroundings World Stored). p.0) h in
      let after : (services.storage.store_resource name r s.stored).1 ≡ s'.stored =
        ap (λ (p : Result (Unit {0}) × Surroundings World Stored). p.1.stored) h in
      rw (← after) (laws.load-store_self name r s.stored stored)

  fetch-fetched :
      (name provider : String) (config : Fields) (r : Resource) (s s' : Surroundings World Stored)
      → fetch services name provider config s ≡ (ok r, s')
      → (services.fetch name provider config s.world).0 ≡ ok r
  unfolding fetch
  fetch-fetched name provider config r s s' h =
      ap (λ (p : Result Resource × Surroundings World Stored). p.0) h

  fetch_source-fetched :
      (source : Source) (r : Resource) (s s' : Surroundings World Stored)
      → fetch_source services source s ≡ (ok r, s')
      → (services.fetch source.name source.provider source.config s.world).0 ≡ ok r
  unfolding fetch_source
  fetch_source-fetched source r s s' h =
      fetch-fetched source.name source.provider source.config r s s'
        (wrapping-eq-ok _ (fetch services source.name source.provider source.config) s h)

  -- The choice of the source leaves the state as it is.
  fetched_before :
      (source : Source) (r : Resource) (s s1 s2 : Surroundings World Stored)
      → s ≡ s1
      → fetch_source services source s1 ≡ (ok r, s2)
      → (services.fetch source.name source.provider source.config s.world).0 ≡ ok r
  fetched_before source r s s1 s2 same h = rw same (fetch_source-fetched source r s1 s2 h)

  -- Whether a resource is kept, by the option `store`: the storage loads it, or all is as before.
  pub data Kept (name : String) (r : Resource) (before after : Surroundings World Stored)
      : Bool → Type 0 where
    loads : services.storage.load_resource name after.stored ≡ ok r → Kept name r before after true
    not_stored : before ≡ after → Kept name r before after false

  -- A resource of the configured source was fetched, then its items were parsed without an error,
  -- and then it was kept if the option says so.
  pub record JsonFetched (json_unmarshal : List ℕ → Result Value)
      (jsonpath_get : String → Value → Result Value) (c : JsonConfig)
      (before after : Surroundings World Stored) : Type 0 where
    pub source : Source
    pub resource : Resource
    pub between : Surroundings World Stored
    pub chosen :
        source_of "invalid resource name" "invalid resource provider" c.resource ≡ ok source
    pub fetched :
        (services.fetch source.name source.provider source.config before.world).0 ≡ ok resource
    pub items :
        execute_data services json_unmarshal jsonpath_get c source.name resource.data_array
          (record before {
            world = (services.fetch source.name source.provider source.config before.world).1;
          })
        ≡ (ok tt, between)
    pub kept : Kept source.name resource between after c.store

-- On a storage that keeps its laws, a raw parse that returns no error has fetched the configured
-- resource, and the storage then loads what was fetched under the resource's name.
pub raw_parse-Fetched :
    {World Stored : Type 0} (services : Services World Stored) (laws : StorageLaws services.storage)
    (option : Dict (Dict Value)) (s s' : Surroundings World Stored)
    → raw_parse services option s ≡ (ok tt, s')
    → Fetched services laws "invalid resource name" "invalid resource provider" option s s'
unfolding raw_parse
raw_parse-Fetched services laws option s s' h =
    let choice = lift (source_of "invalid resource name" "invalid resource provider" option) in
    let (source, s1, chose, h1) = bind-eq-ok choice (raw_fetch services) s h in
    let (resource, s2, fetching, h2) =
      bind-eq-ok (fetch_source services source) (raw_store services source) s1 h1 in
    let (chosen, same) =
      lift-eq-ok services laws
        (source_of "invalid resource name" "invalid resource provider" option) s s1 source chose in
    record {
      source = source;
      resource = resource;
      chosen = chosen;
      fetched = fetched_before services laws source resource s s1 s2 same fetching;
      loads =
          store-loads services laws source.name resource s2 s'
            (wrapping-eq-ok _ (store services source.name resource) s2 h2);
    }
