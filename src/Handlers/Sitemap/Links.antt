-- ===== src/Handlers/Sitemap/Links.antt =====
-- The addresses of the items of a sitemap.
use neon_oss.Base.{◌++◌, ◌≢◌, false, Bool, true, List, [], ◌∷◌, String, Result, ◌≡◌, All, ◌||◌}
use neon_oss.Strings.{has_prefix, ◌+++◌}
use neon_oss.Resource.{Resource}
use neon_oss.Values.{Value}
use neon_oss.Handlers.Sitemap.{SitemapItem, Entry}

-- The address begins with a scheme.
abbrev pub is_absolute : String → Bool
is_absolute url = has_prefix url "http://" || has_prefix url "https://"

-- The address that a configured one stands for: itself where it is absolute, and else the one below
-- the root.
pub data Resolves (root : String) (url : String) : String → Type 0 where
  absolute : is_absolute url ≡ true → Resolves root url url
  below : is_absolute url ≡ false → Resolves root url (root +++ url)

-- What an item of a list has as its address: that of a text, or none.
pub data ListLink (root : String) : String → Type 0 where
  of_text : (text loc : String) → Resolves root text loc → ListLink root loc
  no_text : ListLink root ""

-- The items of an entry: one with the configured address of a static entry, those of a list, and none
-- of an entry of another type.
pub data ItemsOf {F : Type 0} (root : String) (e : Entry F) : List SitemapItem → Type 0 where
  of_static :
      (i : SitemapItem)
      → e.type ≡ "static"
      → Resolves root e.static.loc i.loc
      → ItemsOf root e (i ∷ [])
  of_list :
      (items : List SitemapItem)
      → e.type ≡ "list"
      → All (λ i. ListLink root i.loc) items
      → ItemsOf root e items
  of_other : e.type ≢ "static" → e.type ≢ "list" → ItemsOf root e []

-- The items come in the order of the entries, those of an entry together.
pub data Lists {F : Type 0} (root : String) : List (Entry F) → List SitemapItem → Type 0 where
  done : Lists root [] []
  next :
      (e : Entry F) (more : List (Entry F)) (items rest : List SitemapItem)
      → ItemsOf root e items
      → Lists root more rest
      → Lists root (e ∷ more) (items ++ rest)

module _ {F : Type 0} (r : F → Bool) (f : F → String) (fold : String → String → Bool)
    (get : String → Value → Result Value) (root : String) where
  abbrev ListLinks : List SitemapItem → Type 0
  ListLinks = All (λ i. ListLink root i.loc)
