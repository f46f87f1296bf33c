-- ===== src/Handlers/File/Options.antt =====
-- When the file handler accepts its configuration.
use neon_oss.Base.{
  true, false, String, Option, none, some, Result, ok, err, pos, ◌≤ℤ◌, ◌≡◌, ◌≢◌, ◌↔◌, arith, is_ok,
  eq_iff, refl,
}
use neon_oss.Modules.Maps.{decoded}
use neon_oss.Http.{FileInfo, FileSystem}
use neon_oss.Handlers.File.{
  RawConfig, Config, fill, stat_errors, opened_errors, path_errors, content_type_errors,
  option_errors, init_config, init,
}

pub record IsRegular (info : Result FileInfo) : Type 0 where
  pub file_info : FileInfo
  pub found : info ≡ ok file_info
  pub not_dir : file_info.is_dir ≡ false

-- What `Init` asks of its options, written as the documentation of the options would.
pub record IsServable (fs : FileSystem) (c : Config) : Type 0 where
  pub named : c.path ≢ ""
  pub opens : fs.open_file c.path ≡ ok tt
  pub regular : IsRegular (fs.stat c.path)
  pub typed : c.content_type ≢ some ""
  pub low : pos 100 ≤ℤ c.status_code
  pub high : c.status_code ≤ℤ pos 599

opened_errors_iff :
    (opened : Result (Unit {0})) (info : Result FileInfo)
    → (opened_errors opened info ≡ false) ↔ ((opened ≡ ok tt) × IsRegular info)
unfolding opened_errors stat_errors
opened_errors_iff (err e) info = (λ h. absurd (cc h), λ h. absurd (cc (h.0)))
opened_errors_iff (ok u) (err e) = (λ h. absurd (cc h), λ h. absurd (cc (h.1.found)))
opened_errors_iff (ok u) (ok fi) = (
  λ h. (refl, record { file_info = fi; found = refl; not_dir = h }),
  λ h. cc (h.1.found, h.1.not_dir),
)

path_errors_iff :
    (fs : FileSystem) (path : String)
    → (path_errors fs path ≡ false)
      ↔ ((path ≢ "") × (fs.open_file path ≡ ok tt) × IsRegular (fs.stat path))
unfolding path_errors
path_errors_iff fs path =
    let rest = opened_errors_iff (fs.open_file path) (fs.stat path) in
    (
      λ h.
          let checked = rest.0 (ground (arith, eq_iff path "")) in
          (λ e. ground (arith, eq_iff path ""), checked.0, checked.1),
      λ h. ground (arith, eq_iff path "", rest.1 (h.1, h.2), h.0),
    )

content_type_iff : (t : Option String) → (content_type_errors t ≡ false) ↔ (t ≢ some "")
unfolding content_type_errors
content_type_iff none = ground arith
content_type_iff (some t) = ground (arith, eq_iff t "")

-- `Init` with a decoded configuration succeeds exactly when the path names a file that opens and
-- is not a directory, the content type is not empty, and the status code lies in 100..599; the
-- time to live of the cache is not looked at.
pub file_init_iff :
    (fs : FileSystem) (raw : RawConfig)
    → (is_ok (init fs (decoded raw)) ≡ true) ↔ IsServable fs (fill raw)
unfolding init init_config option_errors fill
file_init_iff fs raw =
    let path = path_errors_iff fs raw.path in
    let type = content_type_iff raw.content_type in
    (
      λ h. record {
        named = (path.0 (ground arith)).0;
        opens = (path.0 (ground arith)).1;
        regular = (path.0 (ground arith)).2;
        typed = type.0 (ground arith);
        low = ground arith;
        high = ground arith;
      },
      λ r. ground (arith, path.1 (r.named, r.opens, r.regular), type.1 r.typed, r.low, r.high),
    )
