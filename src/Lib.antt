-- ===== src/Lib.antt =====
-- neon-oss: a server for web sites. It fetches resources from providers, keeps them in a store,
-- and serves sites through middlewares and handlers. This library models the Go code as functions
-- on explicit states and proves what its components promise.
--
-- The parts and how they interact:
--   Modules of every kind are registered in one table and looked up by name (pkg/module/module.go:
--   Registry). A component makes a module out of its configuration in the same steps everywhere
--   (Modules). The loader (internal/app/neon/loader.go: Loader, its execution in Loader/Run) runs at
--   each tick the parser of each rule. A parser (pkg/modules/app/loader/parsers/raw/raw.go and
--   json/json.go: Parsers, the replacement of parameters in Values) fetches resources from the
--   fetcher (internal/app/neon/fetcher.go: Fetcher) and stores them in the store
--   (internal/app/neon/store.go: Store), which hands every call to a storage module; the one here
--   keeps them in memory (pkg/modules/app/store/storage/memory: Storage; the interface and its laws
--   in Resource, after pkg/core/resource.go and store.go). The rest provider
--   (pkg/modules/app/fetcher/providers/rest/rest.go: Rest) retries requests and follows pages, and
--   the file provider (providers/file/file.go: FileProvider) reads a file.
--   The server (internal/app/neon/server.go: Server) makes listeners and sites, and at its start
--   (Server/Start) links every site to every listener (Server/Life has what it and its sites are called to do
--   later, as a sequence of calls: Calls). A listener
--   (serverlistener.go: Listener) joins the routers of its sites. A site (serversite.go: Site)
--   makes its modules (Site/Setup), starts and stops them (Site/Life), collects what they register and
--   builds its router from it. Under
--   pkg/modules/app/server/site are the middlewares (Middlewares: Rewrite for rewrite, Fields for
--   header, Static for static) and the handlers (Handlers: File, Robots and Sitemap, the last two by
--   way of Text). The js handler runs a script for each page: Handlers/Js has its options, the states
--   that its rules load (States), the elements that a script asks for (Dom, for js/dom.go), the
--   functions of a script (Api, for js/vmapi.go), a run of it (Vm, for js/vm.go), the page's document
--   (Page) and the handler's methods (Serving), with the cache of pages in Cache (js/cache.go).
--   Handlers write into pooled render writers (pkg/render: Render). The sockets of a listener belong
--   to a module (pkg/modules/app/server/listener/listeners: Listeners, with Redirect and Tls), which
--   opens its socket or takes the one that the application has inherited.
--   The instance (internal/app/neon/app.go) starts its components in one order, waits for signals and
--   stops them (App/Life). At a reload it starts a child process and hands its sockets on: App is the
--   parent's side of the talk, App/Child the child's, and App/Child/Handshake joins the two; the two
--   loops of the parent over its listeners, for the files and for the answer, may go in different
--   orders (App/Child/Dealing).
--
-- How the code is translated:
--   A struct is a record, a handler's fields its state. A map is an association list whose order
--   stands for one order in which a range may visit it (Base/Maps). An error is a Result; code that
--   changes a state also where it fails is an Exec. Panics are the none of an Option. The integers
--   of the configuration are compared (Base/Int); where a TTL in seconds is made a duration in
--   nanoseconds, the wrap-around of int64 is written out (seconds in Http). Moments are natural
--   numbers, and an expiry before the epoch counts as the epoch. The names of header fields are
--   brought into the form that net/http gives them (canonical_key in Strings).
--   Bytes are natural numbers. What the program uses of net/http and os is in Http, of strings and
--   strconv in Strings. The calls into other packages are parameters: the HTTP client, JSONPath and
--   the decoding of JSON, regular expressions, templates, MIME types, path and filepath, the
--   JavaScript engine, and the parser and the printer of HTML. A script is the tree of the calls that
--   it makes, so what is proved of scripts holds for all of them.
--
-- Fuel:
--   The retries of a request run on one more than the configured number, which attempts_bound shows
--   to be enough. The pages of a fetch run on fuel of the caller, for a server may link its pages in
--   a circle; fetch-Chain shows that one round for each page is enough. The search for a route's
--   middlewares runs on fuel above the length of the path, which find_middlewares-Nearest shows to
--   be enough.
--
-- Not modelled: the configuration file, the middlewares compress and logger,
-- logging and the commands; locks, goroutines and sleeps, for requests and jobs are taken one after
-- another, and the channels of a reload are given as what they bring; and the failure of writing a
-- response, which the code only logs.
pub mod Base
pub mod Registry
pub mod Render
pub mod Resource
pub mod Storage
pub mod Modules
pub mod Exec
pub mod Store
pub mod Fetcher
pub mod FileProvider
pub mod Cache
pub mod Calls
pub mod Strings
pub mod Values
pub mod Loader
pub mod Parsers
pub mod Rest
pub mod Http
pub mod Handlers
pub mod Site
pub mod Middlewares
pub mod Listener
pub mod Listeners
pub mod Server
mod Tests
pub mod App
