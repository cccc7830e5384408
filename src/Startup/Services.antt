-- ===== src/Startup/Services.antt =====
-- daemon.go and app.go: the services of the process that the daemon starts.
use gitlab_pages_mirror.Common.{
  ℕ, zero, suc, Bool, true, false, ◌≡◌, refl, List, [], ◌∷◌, ◌++◌, map, arith,
}
use gitlab_pages_mirror.Common.Int.{ℤ, pos, ltz}
use gitlab_pages_mirror.Jail.Daemon.{Descriptors, update_fds}
use gitlab_pages_mirror.Jail.Wired.{
  LeadsTo, AllLead, none_lead, more_lead, MetricsLead, no_metrics, metrics_lead, IsWired,
  update_fds-IsWired,
}
use gitlab_pages_mirror.Startup.{
  Handler, Service, http_handler, proxy_handler, listen_and_serve, listen_metrics_fd, run,
}

-- A service of the started process on the socket of another service, in the same way.
pub record IsSame (files : List ℕ) (child parent : Service) : Type 0 where
  pub socket : LeadsTo files child.fd parent.fd
  pub handler : child.handler ≡ parent.handler
  pub use_http2 : child.use_http2 ≡ parent.use_http2
  pub layers : child.layers ≡ parent.layers

pub data AllSame (files : List ℕ) : List Service → List Service → Type 0 where
  none_same : AllSame files [] []
  more_same :
      {c p : Service} {cs ps : List Service}
      → IsSame files c p
      → AllSame files cs ps
      → AllSame files (c ∷ cs) (p ∷ ps)

AllSame-append :
    {files : List ℕ} {cs ps ds qs : List Service}
    → AllSame files cs ps
    → AllSame files ds qs
    → AllSame files (cs ++ ds) (ps ++ qs)
AllSame-append none_same t = t
AllSame-append (more_same s rest) t = more_same s (AllSame-append rest t)

map-AllSame :
    (handler : Handler) (use_http2 tls limited proxyv2 : Bool) {files cs fds : List ℕ}
    → AllLead files cs fds
    → AllSame files
        (map (listen_and_serve handler use_http2 tls limited proxyv2) cs)
        (map (listen_and_serve handler use_http2 tls limited proxyv2) fds)
unfolding listen_and_serve
map-AllSame handler use_http2 tls limited proxyv2 none_lead = none_same
map-AllSame handler use_http2 tls limited proxyv2 (more_lead l rest) =
    more_same (record { socket = l; handler = refl; use_http2 = refl; layers = refl })
      (map-AllSame handler use_http2 tls limited proxyv2 rest)

metrics-AllSame :
    {files : List ℕ} (c fd : ℕ)
    → MetricsLead files c fd
    → AllSame files (listen_metrics_fd c) (listen_metrics_fd fd)
metrics-AllSame zero zero no_metrics = none_same
metrics-AllSame zero (suc fd) (metrics_lead l) = absurd (omega (arith, l.inherited))
metrics-AllSame (suc c) zero m = elim m [ ]
metrics-AllSame (suc c) (suc fd) (metrics_lead l) =
    more_same (record { socket = l; handler = refl; use_http2 = refl; layers = refl }) none_same

run-AllSame :
    (use_http2 : Bool) (max_conns : ℤ) (files : List ℕ) (child config : Descriptors)
    → IsWired files child config
    → AllSame files (run use_http2 max_conns child) (run use_http2 max_conns config)
unfolding run
run-AllSame use_http2 max_conns files child config w =
    let limited = ltz (pos 0) max_conns in
    AllSame-append
      (AllSame-append
        (AllSame-append
          (AllSame-append (map-AllSame http_handler use_http2 false limited false w.http)
            (map-AllSame http_handler use_http2 true limited false w.https))
          (map-AllSame proxy_handler use_http2 false limited false w.proxy))
        (map-AllSame http_handler use_http2 true limited true w.https_proxyv2))
      (metrics-AllSame child.listen_metrics config.listen_metrics w.metrics)

-- The process that the daemon starts with the descriptors it passes on serves the same sockets as
-- the configuration names, in the same order, each with the same handler and the same layers, and
-- finds its configuration on descriptor 3.
pub daemon_serves :
    (use_http2 : Bool) (max_conns : ℤ) (config_reader : ℕ) (config : Descriptors)
    → AllSame
        (update_fds (config_reader ∷ []) config).1
        (run use_http2 max_conns (update_fds (config_reader ∷ []) config).0)
        (run use_http2 max_conns config)
      × LeadsTo (update_fds (config_reader ∷ []) config).1 3 config_reader
daemon_serves use_http2 max_conns config_reader config =
    let (w, l) = update_fds-IsWired config_reader config in
    (run-AllSame use_http2 max_conns _ _ config w, l)
