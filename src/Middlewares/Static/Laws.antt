-- ===== src/Middlewares/Static/Laws.antt =====
-- Which requests the static middleware passes to the file server.
use neon_oss.Base.{
  true, false, String, Result, ok, err, is_ok, ◌≡◌, ◌↔◌, arith, ◌⊎◌, sym, ◌∙◌, inl, inr, refl,
  Bool-cases,
}
use neon_oss.Http.{FileInfo, FileSystem}
use neon_oss.Middlewares.Static.{StaticFileSystem, rooted, found, exists, static_handler}
use neon_oss.Strings.{has_prefix, ◌+++◌}

is_ok_iff : {A : Type 0} (r : Result A) → (is_ok r ≡ true) ↔ ((a : A) × (r ≡ ok a))
is_ok_iff (ok a) = (λ h. (a, refl), λ h. refl)
is_ok_iff (err e) = (λ h. absurd (cc h), λ (a, h). absurd (cc h))

-- What stands for a path: a file, or, where an index may be served, a directory with an index.
pub data IsServed (fs : FileSystem) (s : StaticFileSystem) (index : String)
    : Result FileInfo → Type 0 where
  file : (fi : FileInfo) → fi.is_dir ≡ false → IsServed fs s index (ok fi)
  directory :
      (fi index_info : FileInfo)
      → fi.is_dir ≡ true
      → s.index ≡ true
      → fs.stat index ≡ ok index_info
      → IsServed fs s index (ok fi)

-- A path with a slash before it: itself, or with one put before it.
pub data Rooted (name : String) : String → Type 0 where
  from_root : has_prefix name "/" ≡ true → Rooted name name
  relative : has_prefix name "/" ≡ false → Rooted name ("/" +++ name)

module _ (join : String → String → String) (fs : FileSystem) (s : StaticFileSystem) where
  found_iff :
      (full : String) (info : Result FileInfo)
      → (found join fs s full info ≡ true) ↔ IsServed fs s (join full "index.html") info
  unfolding found
  found_iff full (err e) = (λ h. absurd (cc h), λ h. elim h [ ])
  found_iff full (ok fi) = (
    λ h. elim (Bool-cases fi.is_dir) [
      | inl dir ↦
          let index = (is_ok_iff (fs.stat (join full "index.html"))).0 (ground arith) in
          directory fi index.0 dir (ground arith) index.1
      | inr plain ↦ file fi plain
    ],
    λ h. elim h [
      | file fi' plain ↦ rw plain refl
      | directory fi' index_info dir on e ↦ rw (dir, on, e) refl
    ],
  )

  found_at :
      (name full : String)
      → Rooted name full
      → exists join fs s name ≡ found join fs s (join s.prefix full) (fs.stat (join s.prefix full))
  unfolding exists rooted
  found_at name full (from_root h) = rw h refl
  found_at name full (relative h) = rw h refl

  Rooted-exists : (name : String) → (full : String) × Rooted name full
  Rooted-exists name = elim (Bool-cases (has_prefix name "/")) [
    | inl h ↦ (name, from_root h)
    | inr h ↦ ("/" +++ name, relative h)
  ]

  -- A request goes to the file server when the path that is joined from the directory and the path
  -- of the request, a slash before it where it has none, is that of a file, or of a directory with
  -- an index file where index files may be served, and else to the next handler.
  pub static_handler-IsServed :
      {Request Response : Type 0} (file_server next : Request → Response)
      (path_of : Request → String) (r : Request)
      → (full : String) × Rooted (path_of r) full
        × (((IsServed fs s (join (join s.prefix full) "index.html") (fs.stat (join s.prefix full)))
              × (static_handler join fs file_server next path_of s r ≡ file_server r))
            ⊎ ((¬ (
                  IsServed fs s
                    (join (join s.prefix full) "index.html")
                    (fs.stat (join s.prefix full))))
                × (static_handler join fs file_server next path_of s r ≡ next r)))
  unfolding static_handler
  static_handler-IsServed file_server next path_of r =
      let (full, at) = Rooted-exists (path_of r) in
      let same = found_at (path_of r) full at in
      let iff = found_iff (join s.prefix full) (fs.stat (join s.prefix full)) in
      (
        full,
        at,
        elim (Bool-cases (exists join fs s (path_of r))) [
          | inl there ↦ inl (iff.0 (sym same ∙ there), rw there refl)
          | inr absent ↦ inr (λ served. absurd (cc (iff.1 served, same, absent)), rw absent refl)
        ],
      )
