-- ===== src/Handlers/Sitemap.antt =====
-- pkg/modules/app/server/site/handlers/sitemap/sitemap.go. The execution of the templates by
-- `text/template`, `jsonpath.Get`, the decoding of JSON and the numbers of type float64 are
-- parameters.
pub mod Links
use neon_oss.Base.{
  ℕ, Bool, true, false, not, List, [], ◌∷◌, ◌++◌, String, if◌then◌else◌, Option, none, some, Result,
  ok, err, ℤ, wrap, str_eq, ◌||◌, ◌&&◌, pos, ◌>>=◌,
}
use neon_oss.Modules.Maps.{GivenMap, undecodable, decoded}
use neon_oss.Loader.{or_default, is_not_positive}
use neon_oss.Http.{Request, ResponseWriter}
use neon_oss.Strings.{◌+++◌, has_prefix, format_bool, format_int}
use neon_oss.Resource.{Resource}
use neon_oss.Values.{Value, bool, int, str, arr, Items, nil, item}
use neon_oss.Handlers.Text.{TextHandler, TextState, serve}

pub record IndexEntry : Type 0 where
  pub name : String
  pub type : String
  pub loc : String

pub record StaticEntry (Float : Type 0) : Type 0 where
  pub loc : String
  pub lastmod : Option String
  pub changefreq : Option String
  pub priority : Option Float

pub record ListEntry (Float : Type 0) : Type 0 where
  pub resource : String
  pub filter : String
  pub item_loc : String
  pub item_lastmod : Option String
  pub item_ignore : Option String
  pub changefreq : Option String
  pub priority : Option Float

pub record Entry (Float : Type 0) : Type 0 where
  pub name : String
  pub type : String
  pub static : StaticEntry Float
  pub list : ListEntry Float

-- The type `sitemapHandlerConfig` as it is decoded.
pub record RawConfig (Float : Type 0) : Type 0 where
  pub root : String
  pub cache : Option Bool
  pub cache_ttl : Option ℤ
  pub kind : String
  pub sitemap_index : List IndexEntry
  pub sitemap : List (Entry Float)

-- `sitemapTemplateSitemapItem`
pub record SitemapItem : Type 0 where
  pub loc : String
  pub lastmod : String
  pub changefreq : String
  pub priority : String

-- `p != nil && *p == ""`
abbrev pub present_empty : Option String → Bool
present_empty none = false
present_empty (some s) = str_eq s ""

-- The `switch` on the frequency.
unfoldable pub bad_changefreq : Option String → Bool
bad_changefreq none = false
bad_changefreq (some f) = not (
    str_eq f "always"
    || str_eq f "hourly"
    || str_eq f "daily"
    || str_eq f "weekly"
    || str_eq f "monthly"
    || str_eq f "yearly"
    || str_eq f "never")

abbrev pub is_empty : {A : Type 0} → List A → Bool
is_empty [] = true
is_empty (x ∷ xs) = false

-- `absURL`
unfoldable pub abs_url : String → String → String
abs_url url root =
    if has_prefix url "http://" || has_prefix url "https://" then url else root +++ url

-- The loop of `sitemapIndex`.
unfoldable pub index_items : String → List IndexEntry → List String
unfolding abs_url
index_items root [] = []
index_items root (e ∷ more) = abs_url e.loc root ∷ index_items root more

index_entry_errors : IndexEntry → Bool
index_entry_errors e = str_eq e.name "" || not (str_eq e.type "static") || str_eq e.loc ""

index_errors : List IndexEntry → Bool
index_errors [] = false
index_errors (e ∷ more) = index_entry_errors e || index_errors more

module _ {Float : Type 0} (out_of_range : Float → Bool) (format_float : Float → String) where
  bad_priority : Option Float → Bool
  bad_priority none = false
  bad_priority (some p) = out_of_range p

  static_errors : StaticEntry Float → Bool
  static_errors e =
      str_eq e.loc ""
      || present_empty e.lastmod
      || bad_changefreq e.changefreq
      || bad_priority e.priority

  list_errors : ListEntry Float → Bool
  list_errors e =
      str_eq e.resource ""
      || str_eq e.filter ""
      || str_eq e.item_loc ""
      || present_empty e.item_lastmod
      || present_empty e.item_ignore
      || bad_changefreq e.changefreq
      || bad_priority e.priority

  -- The checks of an entry that set `errConfig`: a missing name and a missing or unknown type are
  -- only logged.
  unfoldable pub entry_errors : Entry Float → Bool
  unfolding static_errors list_errors bad_priority bad_changefreq
  entry_errors e =
      (str_eq e.type "static" && static_errors e.static)
      || (str_eq e.type "list" && list_errors e.list)

  entries_errors : List (Entry Float) → Bool
  entries_errors [] = false
  entries_errors (e ∷ more) = entry_errors e || entries_errors more

  kind_errors : RawConfig Float → Bool
  kind_errors c =
      if str_eq c.kind "sitemapIndex"
      then is_empty c.sitemap_index || index_errors c.sitemap_index
      else if str_eq c.kind "sitemap"
      then is_empty c.sitemap || entries_errors c.sitemap
      else true

  -- `errConfig` after all checks, the defaults filled in.
  unfoldable pub option_errors : RawConfig Float → Bool
  unfolding kind_errors entries_errors entry_errors index_errors index_entry_errors
  option_errors c =
      str_eq c.root "" || is_not_positive (or_default c.cache_ttl (pos 60)) || kind_errors c

  init_config : RawConfig Float → Result (RawConfig Float)
  init_config c =
      if option_errors c
      then err "config"
      else ok (record c {
        cache = some (or_default c.cache false);
        cache_ttl = some (or_default c.cache_ttl (pos 60));
      })

  -- `Init`; the parsing of the fixed templates does not fail.
  unfoldable pub init : GivenMap (RawConfig Float) → Result (RawConfig Float)
  unfolding init_config option_errors
  init (undecodable e) = wrap "parse config: " (err e)
  init (decoded raw) = init_config raw

  priority_text : Option Float → String
  priority_text none = ""
  priority_text (some p) = format_float p

  -- `sitemapTemplateStaticItem`
  unfoldable pub static_item : String → StaticEntry Float → SitemapItem
  unfolding abs_url priority_text
  static_item root e = record {
    loc = abs_url e.loc root;
    lastmod = or_default e.lastmod "";
    changefreq = or_default e.changefreq "";
    priority = priority_text e.priority;
  }

  -- `if v, ok := x.(string); ok { … }`
  text_of : Value → String
  text_of (str s) = s
  text_of _ = ""

  loc_of : String → Value → String
  loc_of root (str s) = abs_url s root
  loc_of root _ = ""

  ignore_text : Value → String
  ignore_text (str s) = s
  ignore_text (bool b) = format_bool b
  ignore_text (int n) = format_int n
  ignore_text _ = ""

  module _ (equal_fold : String → String → Bool)
      (jsonpath_get : String → Value → Result Value) where
    -- An optional extraction: nothing, a failure, or the value.
    extract : Option String → Value → Result (Option Value)
    extract none element = ok none
    extract (some path) element = elim (jsonpath_get path element) [
      | ok v ↦ ok (some v)
      | err e ↦ err e
    ]

    is_ignored : Option Value → Bool
    is_ignored none = false
    is_ignored (some v) = equal_fold (ignore_text v) "true" || equal_fold (ignore_text v) "1"

    lastmod_of : Option Value → String
    lastmod_of none = ""
    lastmod_of (some v) = text_of v

    -- The body of the loop over the elements: `err` is the `continue` after a failed extraction.
    list_item : String → ListEntry Float → Value → Result (List SitemapItem)
    list_item root e element = do
      item_loc ← jsonpath_get e.item_loc element
      lastmod ← extract e.item_lastmod element
      ignore ← extract e.item_ignore element
      ok (
          if is_ignored ignore
          then []
          else (record {
            loc = loc_of root item_loc;
            lastmod = lastmod_of lastmod;
            changefreq = or_default e.changefreq "";
            priority = priority_text e.priority;
          })
            ∷ [])

    kept : Result (List SitemapItem) → List SitemapItem
    kept (ok items) = items
    kept (err e) = []

    elements_items : String → ListEntry Float → Items → List SitemapItem
    elements_items root e nil = []
    elements_items root e (item v more) = kept (list_item root e v) ++ elements_items root e more

    as_array : String → Value → Result Items
    as_array resource (arr elements) = ok elements
    as_array resource _ = err ("parse resource " +++ resource +++ " result: <nil>")

    module _ (json_unmarshal : List ℕ → Result Value) (load : String → Result Resource) where
      data_items : String → ListEntry Float → List (List ℕ) → Result (List SitemapItem)
      data_items root e [] = ok []
      data_items root e (bytes ∷ more) = do
        v ← wrap ("parse resource " +++ e.resource +++ " data: ") (json_unmarshal bytes)
        result ← wrap ("filter resource " +++ e.resource +++ " data: ") (jsonpath_get e.filter v)
        elements ← as_array e.resource result
        rest ← data_items root e more
        ok (elements_items root e elements ++ rest)

      -- `sitemapTemplateListItems`
      unfoldable pub list_items : String → ListEntry Float → Result (List SitemapItem)
      unfolding data_items elements_items list_item kept loc_of lastmod_of as_array extract
          is_ignored text_of priority_text ignore_text
      list_items root e = do
        resource ← wrap ("load resource " +++ e.resource +++ ": ") (load e.resource)
        data_items root e resource.data_array

      entry_items : String → Entry Float → Result (List SitemapItem)
      entry_items root e =
          if str_eq e.type "static"
          then ok (static_item root e.static ∷ [])
          else if str_eq e.type "list"
          then wrap "write list entry: " (list_items root e.list)
          else ok []

      -- The loop of `sitemap`.
      unfoldable pub sitemap_items : String → List (Entry Float) → Result (List SitemapItem)
      unfolding entry_items static_item list_items
      sitemap_items root [] = ok []
      sitemap_items root (e ∷ more) = do
        items ← entry_items root e
        rest ← sitemap_items root more
        ok (items ++ rest)

    module _ (json_unmarshal : List ℕ → Result Value)
        (execute_index : List String → List ℕ × Result (Unit {0}))
        (execute : List SitemapItem → List ℕ × Result (Unit {0})) where
      executed : List ℕ × Result (Unit {0}) → List ℕ × Result (Unit {0})
      executed (bytes, r) = (bytes, wrap "execute template: " r)

      write_items : Result (List SitemapItem) → List ℕ × Result (Unit {0})
      write_items (err e) = ([], err e)
      write_items (ok items) = executed (execute items)

      generate : RawConfig Float → (String → Result Resource) → List ℕ × Result (Unit {0})
      generate c load =
          if str_eq c.kind "sitemapIndex"
          then executed (execute_index (index_items c.root c.sitemap_index))
          else if str_eq c.kind "sitemap"
          then write_items (sitemap_items json_unmarshal load c.root c.sitemap)
          else ([], ok tt)

      -- The handler with its `render`; what it reads is the store.
      unfoldable pub sitemap : RawConfig Float → TextHandler (String → Result Resource)
      unfolding generate write_items executed
      sitemap c = record {
        cache = or_default c.cache false;
        cache_ttl = or_default c.cache_ttl (pos 60);
        content_type = "text/xml; charset=utf-8";
        failure = "generate sitemap: ";
        generate = λ r load. generate c load;
      }

      -- `ServeHTTP`
      unfoldable pub serve_sitemap :
          RawConfig Float
          → (String → Result Resource)
          → ℕ
          → ℕ
          → Request
          → ResponseWriter
          → TextState
          → ResponseWriter × TextState
      unfolding sitemap serve
      serve_sitemap c load now later r w s = serve (sitemap c) load now later r w s
