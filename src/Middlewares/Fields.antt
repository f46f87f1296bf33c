-- ===== src/Middlewares/Fields.antt =====
-- middlewares/header/header.go
pub mod Laws
use neon_oss.Base.{
  Bool, true, false, List, [], ◌∷◌, ◌++◌, String, Option, none, some, Result, ok, err, str_eq,
  if◌then◌else◌, ◌||◌, wrap, Dict,
}
use neon_oss.Modules.Maps.{GivenMap, undecodable, decoded}
use neon_oss.Render.{Header, set_header}
use neon_oss.Http.{ResponseWriter}

-- The type `HeaderRule`.
pub record Rule : Type 0 where
  pub path : String
  pub fields : Dict String
  pub last : Bool

pub record Compiled (Regexp : Type 0) : Type 0 where
  pub regexp : Regexp
  pub rule : Rule

empty_key : Dict String → Bool
empty_key [] = false
empty_key ((k, v) ∷ more) = str_eq k "" || empty_key more

module _ {Regexp : Type 0} (compile : String → Result Regexp) where
  compiled : Rule → Result Regexp → Bool × List (Compiled Regexp)
  compiled rule (err e) = (true, [])
  compiled rule (ok re) = (empty_key rule.fields, (record { regexp = re; rule = rule }) ∷ [])

  check_rule : Rule → Bool × List (Compiled Regexp)
  check_rule rule = if str_eq rule.path "" then (true, []) else compiled rule (compile rule.path)

  -- The loop of `Init`.
  unfoldable pub check_rules : List Rule → Bool × List (Compiled Regexp)
  unfolding compiled check_rule empty_key
  check_rules [] = (false, [])
  check_rules (rule ∷ more) =
      let (failed, here) = check_rule rule in
      let (later, rest) = check_rules more in (failed || later, here ++ rest)

  finish : Bool × List (Compiled Regexp) → Result (List (Compiled Regexp))
  finish (failed, rules) = if failed then err "config" else ok rules

  -- `Init`
  unfoldable pub init : GivenMap (List Rule) → Result (List (Compiled Regexp))
  unfolding finish
  init (undecodable e) = wrap "parse config: " (err e)
  init (decoded rules) = finish (check_rules rules)

-- The loop over the fields of a rule.
unfoldable pub set_fields : Dict String → Header → Header
unfolding set_header
set_fields [] h = h
set_fields ((k, v) ∷ more) h = set_fields more (set_header k v h)

module _ {Regexp : Type 0} (matches : Regexp → String → Bool) where
  -- The loop of `Handler` over the expressions; the next handler is called afterwards.
  unfoldable pub set_matching : List (Compiled Regexp) → String → Header → Header
  set_matching [] path h = h
  set_matching (c ∷ more) path h =
      let set = set_fields c.rule.fields h in
      let go = set_matching more path set in
      let stay = set_matching more path h in
      if matches c.regexp path then (if c.rule.last then set else go) else stay

  -- `Handler`, up to the call of the next handler.
  unfoldable pub header_handler : List (Compiled Regexp) → String → ResponseWriter → ResponseWriter
  header_handler rules path w = record w { header = set_matching rules path w.header }
