-- ===== src/Rest/Retries.antt =====
-- The requests of one fetch: their number, and the end of the retries.
use Prim.Native.Nat.{max}
use neon_oss.Base.{
  ◌∙◌, ◌⊎◌, Option, inl, inr, refl, zero, suc, some, inr, arith, inl, ◌≤◌, Result-cases, ◌<◌,
  leb_int, ◌≡◌, ◌+◌, pos_part, ℕ, ℤ, Result, some, pos, false, ok, err,
}
use neon_oss.Rest.{Request, Response, Page, Verdict, retry, done, judge, attempts}

-- A client that also counts the requests that it is given.
pub counting :
    {World : Type 0}
    → (Request → World → Result Response × World)
    → Request
    → ℕ × World
    → Result Response × (ℕ × World)
counting client_do r (n, w) = let (response, w') = client_do r w in (response, (n + 1, w'))

judge-retry :
    (limit : ℤ) (attempt : ℕ) (r : Result Response)
    → judge limit attempt r ≡ retry
    → leb_int limit (pos attempt) ≡ false
unfolding judge
judge-retry limit attempt (err e) h = cc
judge-retry limit attempt (ok r) h = elim (Result-cases r.body) [
  | inl (bytes, e) ↦ ground arith
  | inr (x, e) ↦ ground arith
]

Verdict-cases : (v : Verdict) → (v ≡ retry) ⊎ ((r : Result Page) × (v ≡ done r))
Verdict-cases retry = inl refl
Verdict-cases (done r) = inr (r, refl)

again_below :
    (limit : ℤ) (attempt : ℕ) (r : Result Response)
    → judge limit attempt r ≡ retry
    → attempt < pos_part limit
again_below limit attempt r h = ground (arith, judge-retry limit attempt r h)

module _ {World : Type 0} (client_do : Request → World → Result Response × World) where
  -- The loop ends, and the requests sent in all are at most the limit, or one if that is less.
  record Ends (limit : ℤ) (attempt n : ℕ) (o : Option (Result Page × (ℕ × World))) : Type 0 where
    result : Result Page
    sent : ℕ
    world : World
    ends : o ≡ some (result, (sent, world))
    enough : sent + attempt ≤ n + max (attempt + 1) (pos_part limit)

  attempts-retry :
      (fuel : ℕ) (limit : ℤ) (attempt : ℕ) (request : Request) (n : ℕ) (w : World)
      → judge limit (attempt + 1) (client_do request w).0 ≡ retry
      → attempts (counting client_do) (suc fuel) limit attempt request (n, w)
        ≡ attempts
            (counting client_do)
            fuel
            limit
            (attempt + 1)
            request
            (n + 1, (client_do request w).1)
  unfolding attempts counting
  attempts-retry fuel limit attempt request n w again = rw (again, attempts) refl

  attempts-done :
      (fuel : ℕ) (limit : ℤ) (attempt : ℕ) (request : Request) (n : ℕ) (w : World) (r : Result Page)
      → judge limit (attempt + 1) (client_do request w).0 ≡ done r
      → attempts (counting client_do) (suc fuel) limit attempt request (n, w)
        ≡ some (r, (n + 1, (client_do request w).1))
  unfolding attempts counting
  attempts-done fuel limit attempt request n w r last = rw (last, attempts) refl

  attempts-Ends :
      (fuel : ℕ) (limit : ℤ) (attempt : ℕ) (request : Request) (n : ℕ) (w : World)
      → pos_part limit < fuel + attempt
      → 0 < fuel
      → Ends limit attempt n (attempts (counting client_do) fuel limit attempt request (n, w))
  attempts-Ends zero limit attempt request n w h h' = absurd (omega arith)
  attempts-Ends (suc fuel) limit attempt request n w h h' =
      elim (Verdict-cases (judge limit (attempt + 1) (client_do request w).0)) [
        | inl again ↦
            let more : attempt + 1 < pos_part limit =
              again_below limit (attempt + 1) (client_do request w).0 again in
            let e =
              attempts-Ends fuel limit (attempt + 1) request (n + 1) (client_do request w).1
                (omega arith) (omega arith) in
            record {
              result = e.result;
              sent = e.sent;
              world = e.world;
              ends = attempts-retry fuel limit attempt request n w again ∙ e.ends;
              enough = omega (arith, e.enough);
            }
        | inr (r, last) ↦ record {
          result = r;
          sent = n + 1;
          world = (client_do request w).1;
          ends = attempts-done fuel limit attempt request n w r last;
          enough = omega arith;
        }
      ]

  -- The loop of `fetchResource` always ends, whatever the server answers, and it sends at most
  -- `retry` requests, or one if `retry` is zero.
  pub attempts_bound :
      (limit : ℤ) (request : Request) (w : World)
      → (result : Result Page) × (sent : ℕ) × (w' : World) × (attempts
            (counting client_do)
            (suc (pos_part limit))
            limit
            0
            request
            (0, w)
          ≡ some (result, (sent, w')))
        × (sent ≤ max 1 (pos_part limit))
  attempts_bound limit request w =
      let e =
        attempts-Ends (suc (pos_part limit)) limit 0 request 0 w (omega arith) (omega arith) in
      (e.result, e.sent, e.world, e.ends, omega (arith, e.enough))
