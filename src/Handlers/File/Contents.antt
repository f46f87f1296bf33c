-- ===== src/Handlers/File/Contents.antt =====
-- What the file handler answers without its cache.
use neon_oss.Base.{
  if◌then◌else◌, pos_part, ltb, Bool-cases, ℕ, true, false, List, [], ◌∷◌, ◌++◌, String, none, some,
  Result, ok, ◌≡◌, ◌⊎◌, inl, inr, All, ◌≤◌, arith, refl,
}
use neon_oss.Render.{
  Header, Pool, write_header, write, render, Render, RenderWriter, new_render_writer, pool_get,
  pool_put,
}
use neon_oss.Http.{is_informational, write_status, write_body, ResponseWriter, FileInfo, FileSystem}
use neon_oss.Handlers.{is_read, Request, emit, add_all}
use neon_oss.Handlers.File.{
  after_read, serve, typed, type_of, Config, FileHandler, is_newer, read, read_newer, read_info,
  make_render, rendered, reply, answer,
}

-- The status that the client gets at last: after an informational one it is that of the body.
abbrev pub final_status : ℕ → ℕ
final_status status = if is_informational status then 200 else status

-- The handler holds the contents of the file at the time that it noted, and the writers of its
-- pool are clean.
pub record InSync (content : ℕ → List ℕ) (h : FileHandler) : Type 0 where
  pub loaded :
      (h.file_info ≡ none) ⊎ ((t : ℕ) × (h.file_info ≡ some t) × (h.file ≡ some (content t)))
  pub clean : All (λ w. w ≡ new_render_writer) h.pool

pool_get-clean :
    (pool : Pool)
    → All (λ w. w ≡ new_render_writer) pool
    → ((pool_get pool).0 ≡ new_render_writer) × All (λ w. w ≡ new_render_writer) (pool_get pool).1
unfolding pool_get
pool_get-clean [] h = (refl, tt)
pool_get-clean (w ∷ pool) h = h

-- A render of the given bytes, with the handler's status, and clean writers.
record Rendered (h : FileHandler) (bytes : List ℕ) (o : Result Render × FileHandler) : Type 0 where
  made : Render
  pool : Pool
  equal : o ≡ (ok made, record h { pool = pool })
  clean : All (λ w. w ≡ new_render_writer) pool
  body : made.body ≡ bytes
  status : made.status_code ≡ pos_part h.config.status_code

module _ (mime_type : String → String) where
  type_of-keeps :
      (c : Config) (rw : RenderWriter)
      → ((type_of mime_type c rw).buf ≡ rw.buf) × ((type_of mime_type c rw).redirect ≡ rw.redirect)
  unfolding type_of typed
  type_of-keeps c rw = ground arith

  rendered-some :
      (c : Config) (bytes : List ℕ) (rw : RenderWriter)
      → rw ≡ new_render_writer
      → (rendered mime_type c (some bytes) rw).0
        ≡ ok (render (write bytes (write_header (pos_part c.status_code) (type_of mime_type c rw))))
  unfolding rendered
  rendered-some c bytes rw e = refl

  make_render-Rendered :
      (h : FileHandler) (bytes : List ℕ)
      → h.file ≡ some bytes
      → All (λ w. w ≡ new_render_writer) h.pool
      → Rendered h bytes (make_render mime_type h)
  unfolding make_render rendered pool_put write write_header render
  make_render-Rendered h bytes held clean =
      let got = pool_get-clean h.pool clean in
      let kept = type_of-keeps h.config (pool_get h.pool).0 in
      record {
        made = render (
            write bytes (
              write_header (pos_part h.config.status_code)
                (type_of mime_type h.config (pool_get h.pool).0)));
        pool = new_render_writer ∷ (pool_get h.pool).1;
        equal = rw held refl;
        clean = (refl, got.1);
        body = ground (arith, kept.0, kept.1, got.0);
        status = refl;
      }

module _ (content : ℕ → List ℕ) (fs : FileSystem) (fi : FileInfo) where
  read_current :
      (h : FileHandler)
      → InSync content h
      → ((t : ℕ) → h.file_info ≡ some t → t ≤ fi.mod_time)
      → fs.stat h.config.path ≡ ok fi
      → fs.read_file h.config.path ≡ ok (content fi.mod_time)
      → read fs h
        ≡ (ok tt, record h { file = some (content fi.mod_time); file_info = some fi.mod_time })
  unfolding read read_info read_newer is_newer
  read_current h sync older e e' = elim sync.loaded [
    | inl none_yet ↦ rw (e, none_yet, e') refl
    | inr (t, at, held) ↦ elim (Bool-cases (ltb t fi.mod_time)) [
      | inl newer ↦ rw (e, at, newer, e') refl
      | inr same ↦
          let now : t ≡ fi.mod_time = ground (arith, older t at) in
          rw (e, at, same) (rw (held, now) refl)
    ]
  ]

  served_current :
      (mime_type : String → String) (h : FileHandler) (bytes : List ℕ) (t later : ℕ)
      (w : ResponseWriter)
      → bytes ≡ content t
      → h.file ≡ some bytes
      → h.file_info ≡ some t
      → All (λ rw. rw ≡ new_render_writer) h.pool
      → w.sent ≡ none
      → (let (w', h') = answer mime_type (make_render mime_type h) later w in
          (w'.body ≡ w.body ++ bytes)
          × ((header : Header) × (w'.sent
                ≡ some (final_status (pos_part h.config.status_code), header)))
          × InSync content h')
  unfolding answer reply emit write_body write_status
  served_current mime_type h bytes t later w eq held at clean unsent =
      let r = make_render-Rendered mime_type h bytes held clean in
      let status = pos_part h.config.status_code in
      rw (r.equal) (
        rw r.body refl,
        (
          add_all r.made.header w.header,
          elim (Bool-cases (is_informational status)) [
            | inl early ↦ rw (unsent, r.status, early) refl
            | inr final ↦ rw (unsent, r.status, final) refl
          ],
        ),
        record { loaded = inr (t, at, cc (held, eq)); clean = r.clean },
      )

  -- With the cache off, a GET or HEAD request is answered with the present contents of the file
  -- and the configured status, or 200 where that is an informational one, and the handler stays in step with the file, when: the handler was
  -- in step, the file can be read, its modification time tells its contents, and that time did
  -- not go back.
  pub serve_current :
      (mime_type : String → String) (h : FileHandler) (now later : ℕ) (r : Request)
      (w : ResponseWriter)
      → InSync content h
      → ((t : ℕ) → h.file_info ≡ some t → t ≤ fi.mod_time)
      → fs.stat h.config.path ≡ ok fi
      → fs.read_file h.config.path ≡ ok (content fi.mod_time)
      → h.config.cache ≡ false
      → is_read r ≡ true
      → w.sent ≡ none
      → (let (w', h') = serve mime_type fs now later r w h in
          (w'.body ≡ w.body ++ content fi.mod_time)
          × ((header : Header) × (w'.sent
                ≡ some (final_status (pos_part h.config.status_code), header)))
          × InSync content h')
  unfolding serve after_read
  serve_current mime_type h now later r w sync older e e' off get unsent =
      rw (get, off, read_current h sync older e e')
        (served_current mime_type
          (record h { file = some (content fi.mod_time); file_info = some fi.mod_time })
          (content fi.mod_time) fi.mod_time later w refl refl refl sync.clean unsent)
