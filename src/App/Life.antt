-- ===== src/App/Life.antt =====
-- internal/app/neon/app.go, `Check`, `Serve`, `stop`, `shutdown` and `reload`: the life of an
-- instance. A call of a component changes the world, which is a parameter, with the call's result.
-- The calls are kept in their order. A reload is given as what its channels bring; the component
-- `loader` is there, as it is after `Init`.
pub mod Order
pub mod Ending
use neon_oss.Base.{
  Dict, List, [], ◌∷◌, ◌++◌, String, Option, none, some, Result, ok, err, wrap, fail_if, is_ok,
  ◌&&◌, not, if◌then◌else◌,
}
use neon_oss.Exec.{Exec, raise, wrapping, ◌>>◌}
use neon_oss.Calls.{Run, call}
use neon_oss.Strings.{◌+++◌, has_prefix}
use neon_oss.App.Child.{pass_files}

pub data Part : Type 0 where
  store : Part
  fetcher : Part
  loader : Part
  server : Part

-- A call of a component, or the start of a child process with its environment and files.
pub data Call (F : Type 0) : Type 0 where
  init : Part → Call F
  register : Part → Call F
  start : Part → Call F
  stop : Part → Call F
  shutdown_server : Call F
  start_process : List String → List F → Call F

-- What the channels of `reload` bring: the two events, or an error.
pub data Told : Type 0 where
  told_init : Told
  told_done : Told
  told_error : String → Told

-- What `Serve` waits for. A reload comes with the result of `generateKey` and what it is told.
pub data Signal : Type 0 where
  context_done : String → Signal
  exit : Signal
  shutdown : Signal
  reload : Result String → List Told → Signal

-- What the instance uses: `perform` makes a call, `listeners` is the server's, and `file_of` is as
-- in `reload`.
pub record Host (W L F : Type 0) : Type 0 where
  pub perform : Call F → W → Result (Unit {0}) × W
  pub listeners : W → Result (Dict (List L))
  pub file_of : L → Option (Result F)
  pub executable : Result String
  pub environ : List String
  pub std_files : List F

-- The environment of the child: the first entry of the key is left out, and the new one is added.
unfoldable pub without_key : List String → List String
without_key [] = []
without_key (item ∷ env) =
    let rest = without_key env in if has_prefix item "CHILD=" then env else item ∷ rest

unfoldable pub child_env : String → List String → List String
child_env key env = without_key env ++ ("CHILD=" +++ key) ∷ []

-- The result of an endless part of the code, or none while it still waits.
abbrev pub Waiting : Type 0 → Type 0 → Type 0
Waiting W F = Option (Result (Unit {0})) × Run W (Call F)

abbrev pub ended : {W F : Type 0} → Result (Unit {0}) × Run W (Call F) → Waiting W F
ended (r, s) = (some r, s)

-- `return err` on a failure, and the next statement on a success.
abbrev pub after :
    {W F : Type 0}
    → Result (Unit {0}) × Run W (Call F)
    → (Run W (Call F) → Waiting W F)
    → Waiting W F
after (err e, s) next = (some (err e), s)
after (ok u, s) next = next s

module _ {W L F : Type 0} (h : Host W L F) where
  -- `Check`: all components are asked, whatever the others answer.
  unfoldable pub check : Exec (Run W (Call F)) (Unit {0})
  check s =
      let (r1, w1) = h.perform (init store) s.world in
      let (r2, w2) = h.perform (init fetcher) w1 in
      let (r3, w3) = h.perform (init loader) w2 in
      let (r4, w4) = h.perform (init server) w3 in
      (
        fail_if (not (is_ok r1 && is_ok r2 && is_ok r3 && is_ok r4)) "check failure",
        record {
          world = w4;
          calls = s.calls ++ init store ∷ init fetcher ∷ init loader ∷ init server ∷ [];
        },
      )

  -- `Serve` up to the word that the instance is ready, after its work as a child.
  unfoldable pub boot : Exec (Run W (Call F)) (Unit {0})
  boot =
      call h.perform (init store) "init store: "
      >> call h.perform (register store) "register store: "
      >> call h.perform (init fetcher) "init fetcher: "
      >> call h.perform (register fetcher) "register fetcher: "
      >> call h.perform (init loader) "init loader: "
      >> call h.perform (register loader) "register loader: "
      >> call h.perform (start loader) "start loader: "
      >> call h.perform (init server) "init server: "
      >> call h.perform (register server) "register server: "
      >> call h.perform (start server) "start server: "

  unfoldable pub stop_instance : Exec (Run W (Call F)) (Unit {0})
  stop_instance =
      call h.perform (stop server) "stop server: " >> call h.perform (stop loader) "stop loader: "

  unfoldable pub shutdown_instance : Exec (Run W (Call F)) (Unit {0})
  shutdown_instance =
      call h.perform shutdown_server "shutdown server: "
      >> call h.perform (stop loader) "stop loader: "

  -- The event `init`: the child process is started with the files of all listeners.
  with_files : String → Result (List F) → Exec (Run W (Call F)) (Unit {0})
  with_files key (err e) = raise e
  with_files key (ok files) =
      call h.perform (start_process (child_env key h.environ) files) "start process: "

  with_listeners : String → Result (Dict (List L)) → Exec (Run W (Call F)) (Unit {0})
  with_listeners key (err e) = raise ("get listeners: " +++ e)
  with_listeners key (ok ls) = with_files key (pass_files h.file_of ls h.std_files)

  with_executable : String → Result String → Exec (Run W (Call F)) (Unit {0})
  with_executable key (err e) s = (err ("get executable: " +++ e), s)
  with_executable key (ok exe) s = with_listeners key (h.listeners s.world) s

  unfoldable pub launch : String → Exec (Run W (Call F)) (Unit {0})
  unfolding with_files with_listeners with_executable
  launch key = with_executable key h.executable

  -- The loop of `reload` over what it is told.
  unfoldable pub reloading : String → List Told → Run W (Call F) → Waiting W F
  reloading key [] s = (none, s)
  reloading key (told_init ∷ more) s = after (launch key s) λ s'. reloading key more s'
  reloading key (told_done ∷ more) s = ended (wrapping "shutdown: " shutdown_instance s)
  reloading key (told_error e ∷ more) s = (some (err ("reload: " +++ e)), s)

  unfoldable pub reload_instance : Result String → List Told → Run W (Call F) → Waiting W F
  reload_instance (err e) told s = (some (err ("generate key: " +++ e)), s)
  reload_instance (ok key) told s = reloading key told s

  -- A signal that fails is passed over, and `Serve` waits for the next.
  unfoldable pub retried : Waiting W F → (Run W (Call F) → Waiting W F) → Waiting W F
  retried (none, s) next = (none, s)
  retried (some (ok u), s) next = (some (ok u), s)
  retried (some (err e), s) next = next s

  -- The loop of `Serve`.
  unfoldable pub events : List Signal → Run W (Call F) → Waiting W F
  events [] s = (none, s)
  events (context_done e ∷ more) s = (some (err ("context: " +++ e)), s)
  events (exit ∷ more) s = retried (ended (stop_instance s)) λ s'. events more s'
  events (shutdown ∷ more) s = retried (ended (shutdown_instance s)) λ s'. events more s'
  events (reload key told ∷ more) s = retried (reload_instance key told s) λ s'. events more s'

  -- `Serve`, where `as_child` is the result of `child`, if this is a child process.
  unfoldable pub serve : Option (Result (Unit {0})) → List Signal → Run W (Call F) → Waiting W F
  serve (some (err e)) signals s = (some (err ("execute child: " +++ e)), s)
  serve (some (ok u)) signals s = after (boot s) λ s'. events signals s'
  serve none signals s = after (boot s) λ s'. events signals s'
