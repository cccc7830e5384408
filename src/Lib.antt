-- ===== src/Lib.antt =====
-- GitLab Pages, the daemon that serves static sites: a verification library.
--
-- A request passes the handlers of app.go. They find its domain through a source of domains, which
-- is the GitLab API behind a cache or a tree of files on disk. The domain resolves the request to a
-- lookup path, which names a project and its protection, and the serving of that lookup path reads
-- the files of the site through a virtual file system, with the rules of its _redirects file.
--
-- Conventions. A Go string is a list of bytes (Text), a map an association list (Dict), a pointer an
-- Option, a pair of a value and an error a Result, and a panic is none. Numbers are natural numbers,
-- or integers (Common.Int) where Go's are signed.
-- The Go standard library, third-party packages and copies of other projects' code are parameters:
-- fields of a record such as Outside, or arguments such as parse_url. An http.ResponseWriter is the
-- list of the calls made on it, the latest first.
--
-- Common and its children: the shared types, texts, paths, maps, lists, and lemmas on them.
-- Vfs: internal/vfs, the interface of file systems.
-- Http: the request as net/http gives it, internal/request and internal/host.
-- Responses: the calls on a response and internal/httperrors/httperrors.go (serveErrorPage is
--   serve_error_page; the HTML of a page is a value, not its text).
-- Serving.Requests, Serving.Handlers: internal/serving, the data of a request to a serving.
-- Serving.Reader: internal/serving/disk, reader.go, helpers.go, errors.go and serving.go. tryFile is
--   try_file, cut at its early returns into with_root, try_below, try_result and try_resolved;
--   resolvePath is resolve_path, serveFile is serve_file. In Reader, Reading is about what is served
--   and Caching about the headers. The symbolic links (serving/disk/symlink) and the negotiation of
--   encodings (httputil) are parameters.
-- Redirects: internal/redirects/redirects.go. Rules has the code, Safety the validation, Matching the
--   search for a rule, Reports the text for the owner of the site and the reading of the file.
-- Domain: internal/domain/domain.go. Serve has the methods, Certificates EnsureCertificate, Failing
--   the pages after a failed authentication. A resolver answers the same while one request is
--   handled, which the code does not promise when a cached entry is replaced meanwhile.
-- Auth: internal/auth/auth.go, with the session as a value that the store gives once per handler, and
--   Auth.Codes for auth_code.go, and Auth.Keys for generateKeys and New.
-- App: app.go, internal/acme/acme.go and internal/rejectmethods/middleware.go. Pipeline has each
--   handler, in the order of buildHandlerPipeline, over an interface for the authentication; Access is
--   about what the handlers keep from a visitor, and Guarded puts the module Auth behind the interface;
--   Assembled is runApp with every part, and Certificates is ServeTLS.
-- Source.Api: internal/source/gitlab/api, the answers of the API.
-- Source.Cache: internal/source/gitlab/cache. Entry is entry.go, Retriever retriever.go and Store
--   memstore.go with cache.go. Goroutines are a step relation on an entry (Lifecycle) or an explicit
--   order of calls (Sharing, Resolving); the entries that requests share are addresses into a store
--   that keeps every entry ever made. The retries are a recursion on the number that is left.
-- Source.Gitlab: internal/source/gitlab, gitlab.go, factory.go and gitlab_poll.go.
-- Source.Client: internal/source/gitlab/client/client.go, up to the reply and its decoding.
-- Source.Domains: internal/source/domains.go, the choice between the two sources.
-- Source.Disk: internal/source/disk. Groups is group.go, custom.go and config.go, Maps and Scanning
--   map.go and disk.go. The walk over a group is a recursion on the levels that are left, 22 below
--   the first, which is where readProject stops. Watching is Watch of map.go, as rounds of its loop.
--
-- Local: internal/vfs/local, root.go and vfs.go, with the operating system as a parameter, and with it
--   what becomes of symbolic links in the directories of a path.
-- Httpfs: internal/httpfs/http_fs.go, with the file system as a parameter.
-- Config: internal/config, validate.go and the checks of config.go and tls/tls.go. Flags has
--   multi_string_flag.go, internal/validateargs and the parser of internal/middleware/headers.go,
--   Splitting is about flags that are given several times.
-- Limiter: internal/netutil/shared_limit_listener.go. Steps is a step relation on the shared pool, with
--   one step for each operation on the channel, a gauge or a releaseOnce; Bounds is about it.
-- Ranges: internal/httprange. Resources is resource.go, Readers http_reader.go and
--   http_ranged_reader.go, with int64 sums that wrap around. A body gives its bytes in pieces of any
--   length from one byte on; io.ReadFull is a recursion on fuel, one round for each byte that is
--   wanted. Bounds is about the ranges of requests, Sections and Reading about readers, ReadAt about
--   ReadAt; Ranged has RangedReader with its cached reader, Typed and Reached the operations on a
--   reader one after another.
-- Artifact: internal/artifact/artifact.go, and in Handlers internal/handlers/handlers.go. Paths has the
--   regular expression pathExtractor, Quiet and Caching are about the headers for caches.
-- Zip: internal/vfs/zip. Entries and Archives are archive.go with the tables and the calls on them,
--   Opening its openArchive and readArchive, Lru lru_cache.go, and Vfs vfs.go. NewResource and the
--   reading of the entries are one step, which ends the goroutine of readArchive; the fetch functions
--   of the two caches are given by what they return. Root goes up to the wait of openArchive.
--   Reconfigure has New and Reconfigure, Lifetime is about the file system from then on. Inflating is
--   deflate_reader.go, a heap of readers with a pool; Writes and Pooled are about what the pool holds.
-- Jail: internal/jail, and in Daemon the parts of daemon.go that set the jail up and pass descriptors
--   on. Building is Build and Dispose as steps that change the state of the system and may fail
--   (Effects); Unmounted, Mounts, Sweeps and Outcomes are about them, and Shapes, Available and Wired
--   about daemon.go. The order in which Go walks the maps of a jail is that of a list, which may be any.
-- Startup: main.go, server.go and Run of app.go, the sockets and how each is served.
--
-- Not modelled: the metrics and the logs, the start of the process and its signals, and the reading of
-- the flags into the configuration. The reverse proxy for serverless functions is not created by this
-- commit. The symbolic links and the negotiation of encodings are copies of other projects.
pub mod App
pub mod Artifact
pub mod Auth
pub mod Common
pub mod Config
pub mod Domain
pub mod Http
pub mod Httpfs
pub mod Jail
pub mod Limiter
pub mod Local
pub mod Ranges
pub mod Redirects
pub mod Responses
pub mod Serving
pub mod Source
pub mod Startup
pub mod Vfs
pub mod Zip
