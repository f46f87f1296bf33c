-- ===== src/Listeners/Inherited.antt =====
-- What a listener of a child process does with the socket that its parent has opened.
use neon_oss.Base.{
  sym, ap, ◌∙◌, ◌++◌, List, [], ◌∷◌, Dict, get, String, some, Result, ok, err, ◌≡◌, refl,
}
use neon_oss.Listeners.{
  Options, Mediator, or_nil, new_mediator, register_listener, held, opened, register, passed_on,
  kept,
}

-- The sockets of a result, or none.
sockets_of : {L : Type 0} → Result (List L) → List L
sockets_of (ok ls) = ls
sockets_of (err e) = []

opened-listeners :
    {L : Type 0} (listen : String → String → Result L) (r : Result L) (m m' : Mediator L) (l : L)
    → opened listen r m ≡ (ok l, m')
    → m'.listeners ≡ m.listeners ++ l ∷ []
unfolding opened register_listener
opened-listeners listen (err e) m m' l h = absurd (cc h)
opened-listeners listen (ok k) m m' l h =
    let same : k ≡ l = cc h in
    let at : m'.listeners ≡ m.listeners ++ k ∷ [] = sym (ap (λ x. x.1.listeners) h) in
    at ∙ ap (λ x. m.listeners ++ x ∷ []) same

-- The listener `name` of an instance that has inherited nothing has opened the socket `l`, and a child
-- is given the sockets `handed`, under the name those that the instance passes on. Then the child takes
-- the same socket, whatever `net.Listen` would answer, and passes no socket on itself.
pub register-inherited :
    {L : Type 0} (listen listen' : String → String → Result L) (c c' : Options) (name : String)
    (l : L) (handed : Dict (List L)) (m : Mediator L)
    → register listen c (new_mediator name []) ≡ (ok l, m)
    → ok (or_nil (get name handed)) ≡ passed_on (some m)
    → let child = register listen' c' (new_mediator name handed) in
      (child.0 ≡ ok l) × (passed_on (kept child).1 ≡ ok [])
unfolding sockets_of register new_mediator passed_on kept get held opened register_listener
register-inherited listen listen' c c' name l handed m opens given =
    let here = opened-listeners listen _ (new_mediator name []) m l opens in
    let shared : or_nil (get name handed) ≡ l ∷ [] = ap (sockets_of) given ∙ here in
    rw shared (refl, refl)
