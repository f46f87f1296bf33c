-- ===== src/Middlewares/Rewrite.antt =====
-- middlewares/rewrite/rewrite.go
pub mod Laws
use neon_oss.Base.{
  Bool, true, false, List, [], ◌∷◌, ◌++◌, String, Option, none, some, Result, ok, err, str_eq,
  if◌then◌else◌, ◌||◌, wrap, not, ◌&&◌, ℕ,
}
use neon_oss.Modules.Maps.{GivenMap, undecodable, decoded}
use neon_oss.Strings.{has_prefix}

-- The type `RewriteRule`.
pub record Rule : Type 0 where
  pub path : String
  pub replacement : String
  pub flag : Option String
  pub last : Bool

-- A rule with its compiled expression: the fields `regexps` and `Rules` side by side.
pub record Compiled (Regexp : Type 0) : Type 0 where
  pub regexp : Regexp
  pub rule : Rule

bad_flag : Option String → Bool
bad_flag none = false
bad_flag (some f) = not (str_eq f "permanent" || str_eq f "redirect")

module _ {Regexp : Type 0} (compile : String → Result Regexp) where
  compiled : Rule → Result Regexp → Bool × List (Compiled Regexp)
  compiled rule (err e) = (true, [])
  compiled rule (ok re) = (false, (record { regexp = re; rule = rule }) ∷ [])

  check_path : Rule → Bool × List (Compiled Regexp)
  check_path rule = if str_eq rule.path "" then (true, []) else compiled rule (compile rule.path)

  -- The loop of `Init`: whether there was an error, and the expressions compiled.
  unfoldable pub check_rules : List Rule → Bool × List (Compiled Regexp)
  unfolding compiled check_path bad_flag
  check_rules [] = (false, [])
  check_rules (rule ∷ more) =
      let (failed, here) = check_path rule in
      let (later, rest) = check_rules more in
      (failed || str_eq rule.replacement "" || bad_flag rule.flag || later, here ++ rest)

  finish : Bool × List (Compiled Regexp) → Result (List (Compiled Regexp))
  finish (failed, rules) = if failed then err "config" else ok rules

  -- `Init`
  unfoldable pub init : GivenMap (List Rule) → Result (List (Compiled Regexp))
  unfolding finish
  init (undecodable e) = wrap "parse config: " (err e)
  init (decoded rules) = finish (check_rules rules)

-- The variables of the handler's loop.
pub record Rewriting : Type 0 where
  pub rewrite : Bool
  pub path : String
  pub status : ℕ
  pub redirect : Bool

is_remote : String → Bool
is_remote path = has_prefix path "http://" || has_prefix path "https://"

flagged : Option String → Rewriting → Rewriting
flagged none s = s
flagged (some f) s =
    if str_eq f "redirect"
    then record s { status = 302; redirect = true }
    else if str_eq f "permanent"
    then record s { status = 301; redirect = true }
    else s

-- The body of the loop for a rule that matches, up to its `break`.
unfoldable pub rewrite_with : Rule → Rewriting → Rewriting
unfolding flagged is_remote
rewrite_with rule s = flagged rule.flag (record s {
  rewrite = true;
  path = rule.replacement;
  redirect = if is_remote rule.replacement then true else s.redirect;
})

-- What the middleware does: call the next handler with a path, or answer with a redirection.
pub data Outcome : Type 0 where
  next : String → Outcome
  redirect_to : String → ℕ → Outcome

module _ {Regexp : Type 0} (matches : Regexp → String → Bool) where
  -- The loop over the expressions.
  unfoldable pub rewrite_all : List (Compiled Regexp) → Rewriting → Rewriting
  unfolding rewrite_with
  rewrite_all [] s = s
  rewrite_all (c ∷ more) s =
      let s' = rewrite_with c.rule s in
      let stay = rewrite_all more s in
      let go = rewrite_all more s' in
      if matches c.regexp s.path then (if c.rule.last then s' else go) else stay

  decide : String → Rewriting → Outcome
  decide path s =
      if s.rewrite
      then (if s.redirect then redirect_to s.path s.status else next s.path)
      else next path

  -- `Handler`
  unfoldable pub rewrite_handler : List (Compiled Regexp) → String → Outcome
  unfolding decide rewrite_all
  rewrite_handler rules path =
      decide path (
        rewrite_all rules (record { rewrite = false; path = path; status = 302; redirect = false }))
