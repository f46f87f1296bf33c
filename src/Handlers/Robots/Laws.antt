-- ===== src/Handlers/Robots/Laws.antt =====
-- Which hosts may be crawled.
use neon_oss.Base.{
  str_eq, ◌⊎◌, if◌then◌else◌, ℕ, Bool, true, false, List, [], ◌∷◌, String, Result, ◌≡◌, ◌↔◌, refl,
  arith, Any, eq_iff, inl, inr,
}
use neon_oss.Http.{Request}
use neon_oss.Handlers.Robots.{Config, robots, check_host}

check_host_iff :
    (hosts : List String) (host : String) (check : Bool)
    → (check_host hosts host check ≡ true) ↔ ((check ≡ true) ⊎ Any (λ h. h ≡ host) hosts)
unfolding check_host
check_host_iff [] host check = (λ h. inl h, λ h. elim h [ inl e ↦ e | inr x ↦ absurd x ])
check_host_iff (h ∷ more) host check =
    ground (arith, eq_iff h host, check_host_iff more host (if str_eq h host then true else check))

module _ (execute : Bool → List String → List ℕ × Result (Unit {0})) where
  -- The text for robots is made with the sitemaps, and with crawling allowed exactly for the
  -- requests whose host is one of the configured hosts.
  pub robots-generate :
      (c : Config) (r : Request)
      → (check : Bool) × ((robots execute c).generate r c ≡ execute check c.sitemaps)
        × ((check ≡ true) ↔ Any (λ h. h ≡ r.host) c.hosts)
  unfolding robots
  robots-generate c r =
      let iff = check_host_iff c.hosts r.host false in
      (
        check_host c.hosts r.host false,
        refl,
        (λ e. elim (iff.0 e) [ inl x ↦ absurd (cc x) | inr a ↦ a ], λ a. iff.1 (inr a)),
      )
