-- ===== src/Fetcher/Laws.antt =====
-- What a successful initialisation of the providers or of the rules has loaded.
use neon_oss.Base.{
  inr, inl, All, Bool, Result-cases, ap, ◌∙◌, ◌↔◌, is_ok, true, false, Dict, get, get-put, [], ◌∷◌,
  String, Option, some, ok, err, ◌≡◌, refl, arith, str_eq, if◌then◌else◌,
}
use neon_oss.Registry.{ModuleInfo}
use neon_oss.Modules.{Kind, load_module}
use neon_oss.Fetcher.{decoded, init, Loaded, load_first, load_all}

module _ {Instance Module Config : Type 0} (kind : Kind Instance Module Config)
    (registry : Dict (ModuleInfo Instance)) (prefix : String) where
  -- A failure is never forgotten.
  load_first-failed :
      (name : String) (modules : Dict (Option Config)) (loaded : Dict Module)
      → (load_first kind registry prefix name modules (true, loaded)).0 ≡ true
  unfolding load_first
  load_first-failed name [] loaded = refl
  load_first-failed name ((m, c) ∷ more) loaded = ground (arith, load_first-failed name more loaded)

  load_all-failed :
      (config : Dict (Dict (Option Config))) (acc : Loaded Module)
      → acc.0 ≡ true
      → (load_all kind registry prefix config acc).0 ≡ true
  unfolding load_all
  load_all-failed [] acc h = h
  load_all-failed ((name, modules) ∷ more) (failed, loaded) h =
      load_all-failed more _ (rw h (load_first-failed name modules loaded))

  -- What `name` holds once its own loop has run without a failure: the first of its modules.
  pub expected : Dict (Option Config) → Option Module → Option Module
  expected [] before = before
  expected ((m, c) ∷ more) before = elim (load_module kind registry prefix m c) [
    | ok made ↦ some made
    | err e ↦ before
  ]

  -- The first module of a provider (or rule) loads; one without a module needs none.
  abbrev pub FirstLoads : Dict (Option Config) → Type 0
  FirstLoads [] = Unit
  FirstLoads ((m, c) ∷ more) = (made : Module) × (load_module kind registry prefix m c ≡ ok made)

  load_first-ok :
      (name other : String) (modules : Dict (Option Config)) (failed : Bool) (loaded : Dict Module)
      → (load_first kind registry prefix name modules (failed, loaded)).0 ≡ false
      → (get other (load_first kind registry prefix name modules (failed, loaded)).1
          ≡ (if str_eq name other then expected modules (get other loaded) else get other loaded))
        × (failed ≡ false)
        × FirstLoads modules
  unfolding load_first expected
  load_first-ok name other [] failed loaded h = ground arith
  load_first-ok name other ((m, c) ∷ more) failed loaded h =
      elim (Result-cases (load_module kind registry prefix m c)) [
        | inl (made, e) ↦ (ground (arith, get-put name other made loaded), ground arith, (made, e))
        | inr (e, p) ↦ absurd (ground (arith, load_first-failed name more loaded))
      ]

  load_first_complete :
      (name : String) (modules : Dict (Option Config)) (failed : Bool) (loaded : Dict Module)
      → FirstLoads modules
      → (load_first kind registry prefix name modules (failed, loaded)).0 ≡ failed
  unfolding load_first
  load_first_complete name [] failed loaded h = refl
  load_first_complete name ((m, c) ∷ more) failed loaded h = ground arith

  -- What `other` holds after the loop over all providers.
  pub expected_all : String → Dict (Dict (Option Config)) → Option Module → Option Module
  expected_all other [] before = before
  expected_all other ((name, modules) ∷ more) before =
      expected_all other more (if str_eq name other then expected modules before else before)

  load_all-ok :
      (other : String) (config : Dict (Dict (Option Config))) (acc : Loaded Module)
      → (load_all kind registry prefix config acc).0 ≡ false
      → (get other (load_all kind registry prefix config acc).1
          ≡ expected_all other config (get other acc.1))
        × (acc.0 ≡ false)
        × All (λ p. FirstLoads p.1) config
  unfolding load_all expected_all
  load_all-ok other [] (failed, loaded) h = (refl, h, tt)
  load_all-ok other ((name, modules) ∷ more) (failed, loaded) h =
      let (later, fine, loads) =
        load_all-ok other more (load_first kind registry prefix name modules (failed, loaded)) h in
      let (here, clean, first) = load_first-ok name other modules failed loaded fine in
      (later ∙ ap (expected_all other more) here, clean, (first, loads))

  load_all_complete :
      (config : Dict (Dict (Option Config))) (acc : Loaded Module)
      → acc.0 ≡ false
      → All (λ p. FirstLoads p.1) config
      → (load_all kind registry prefix config acc).0 ≡ false
  unfolding load_all
  load_all_complete [] acc h loads = h
  load_all_complete ((name, modules) ∷ more) (failed, loaded) h loads =
      load_all_complete more (load_first kind registry prefix name modules (failed, loaded))
        (load_first_complete name modules failed loaded loads.0 ∙ h) loads.1

  -- The loops over a whole configuration leave no failure exactly when the first module of every
  -- entry loads.
  pub load_all_iff :
      (config : Dict (Dict (Option Config))) (loaded : Dict Module)
      → ((load_all kind registry prefix config (false, loaded)).0 ≡ false)
        ↔ All (λ p. FirstLoads p.1) config
  load_all_iff config loaded = (
    λ h. (load_all-ok "" config (false, loaded) h).2,
    λ loads. load_all_complete config (false, loaded) refl loads,
  )

  pub get-load_all :
      (other : String) (config : Dict (Dict (Option Config))) (loaded : Dict Module)
      → (load_all kind registry prefix config (false, loaded)).0 ≡ false
      → get other (load_all kind registry prefix config (false, loaded)).1
        ≡ expected_all other config (get other loaded)
  get-load_all other config loaded h = (load_all-ok other config (false, loaded) h).0

-- `Init` with a decoded configuration succeeds exactly when the first module of every provider is
-- registered, has the provider interface and initialises; it then leaves each provider with the
-- module that the last entry of its name gives, and every other name as it was.
pub init_iff :
    {Instance Module Config : Type 0} (kind : Kind Instance Module Config)
    (registry : Dict (ModuleInfo Instance)) (config : Dict (Dict (Option Config)))
    (providers : Dict Module)
    → ((is_ok (init kind registry (decoded config) providers) ≡ true)
        ↔ All (λ p. FirstLoads kind registry "app.fetcher.provider." p.1) config)
      × ((loaded : Dict Module)
          → init kind registry (decoded config) providers ≡ ok loaded
          → (name : String)
          → get name loaded
            ≡ expected_all kind registry "app.fetcher.provider." name config (get name providers))
unfolding init
init_iff kind registry config providers =
    let iff = load_all_iff kind registry "app.fetcher.provider." config providers in
    (
      (λ h. iff.0 (ground arith), λ loads. rw (iff.1 loads)),
      λ loaded h name.
          ground (arith, get-load_all kind registry "app.fetcher.provider." name config providers),
    )
