-- ===== src/Startup.antt =====
-- main.go, server.go and Run of app.go: the sockets of the configured addresses, and how each is
-- served. An error in one of these steps ends the process, which is none here; the steps of a
-- service that may fail when it starts are left out.
use gitlab_pages_mirror.Common.{
  ℕ, zero, suc, Text, codes, Bool, true, false, Option, none, some, List, [], ◌∷◌, ◌++◌, map,
  if◌then◌else◌, is_some,
}
use gitlab_pages_mirror.Common.Int.{ℤ, pos, ltz}
use gitlab_pages_mirror.Config.Flags.{MultiStringFlag, split_flag}
use gitlab_pages_mirror.Jail.Daemon.{Descriptors}
pub mod Services
pub mod Tests

-- The flags with addresses.
pub record Addresses : Type 0 where
  pub listen_http : MultiStringFlag
  pub listen_https : MultiStringFlag
  pub listen_proxy : MultiStringFlag
  pub listen_https_proxyv2 : MultiStringFlag
  pub metrics_address : Text

-- createSocket: a new socket for an address, by its descriptor, or the end of the process.
pub record Network : Type 1 where
  pub State : Type 0
  pub create_socket : Text → State → Option (ℕ × State)

module _ (N : Network) where
  open N use {State, create_socket}

  abbrev put_socket : ℕ → Option (List ℕ × State) → Option (List ℕ × State)
  put_socket fd none = none
  put_socket fd (some (fds, s)) = some (fd ∷ fds, s)

  abbrev with_socket :
      (State → Option (List ℕ × State)) → Option (ℕ × State) → Option (List ℕ × State)
  with_socket rest none = none
  with_socket rest (some (fd, s)) = put_socket fd (rest s)

  -- One of the loops over addresses.
  unfoldable pub create_sockets : List Text → State → Option (List ℕ × State)
  create_sockets [] s = some ([], s)
  create_sockets (addr ∷ addrs) s = with_socket (create_sockets addrs) (create_socket addr s)

  abbrev and_next :
      {A B : Type 0} → Option (A × State) → (A → State → Option (B × State)) → Option (B × State)
  and_next none f = none
  and_next (some (a, s)) f = f a s

  -- createAppListeners
  unfoldable pub create_app_listeners : Addresses → State → Option (Descriptors × State)
  unfolding create_sockets split_flag
  create_app_listeners config s =
      and_next (create_sockets (split_flag config.listen_http) s) λ http s1.
        and_next (create_sockets (split_flag config.listen_https) s1) λ https s2.
          and_next (create_sockets (split_flag config.listen_proxy) s2) λ proxy s3.
            and_next (create_sockets (split_flag config.listen_https_proxyv2) s3)
              λ https_proxyv2 s4. some (
                record {
                  http = http;
                  https = https;
                  proxy = proxy;
                  https_proxyv2 = https_proxyv2;
                  listen_metrics = 0;
                },
                s4,
              )

  -- createMetricsListener
  unfoldable pub create_metrics_listener : Text → Descriptors → State → Option (Descriptors × State)
  create_metrics_listener [] d s = some (d, s)
  create_metrics_listener (c ∷ addr) d s =
      and_next (create_socket (c ∷ addr) s) λ fd s'. some (record d { listen_metrics = fd }, s')

pub data Handler : Type 0 where
  http_handler proxy_handler metrics_handler : Handler

-- The listeners around a socket, the innermost first.
pub data Layer : Type 0 where
  shared_limit keep_alive proxy_protocol tls_layer : Layer

pub record Service : Type 0 where
  pub fd : ℕ
  pub handler : Handler
  pub use_http2 : Bool
  pub layers : List Layer

abbrev pub layer_if : Bool → Layer → List Layer
layer_if b l = if b then l ∷ [] else []

-- listenAndServe
unfoldable pub listen_and_serve : Handler → Bool → Bool → Bool → Bool → ℕ → Service
listen_and_serve handler use_http2 tls limited proxyv2 fd = record {
  fd = fd;
  handler = handler;
  use_http2 = use_http2;
  layers =
      layer_if limited shared_limit
      ++ keep_alive ∷ layer_if proxyv2 proxy_protocol
      ++ layer_if tls tls_layer;
}

abbrev pub listen_metrics_fd : ℕ → List Service
listen_metrics_fd zero = []
listen_metrics_fd (suc fd) =
    record { fd = suc fd; handler = metrics_handler; use_http2 = false; layers = [] } ∷ []

-- Run, up to the services that it starts: a limiter with a number of connections above 0.
unfoldable pub run : Bool → ℤ → Descriptors → List Service
unfolding listen_and_serve
run use_http2 max_conns d =
    let limited = ltz (pos 0) max_conns in
    map (listen_and_serve http_handler use_http2 false limited false) d.http
    ++ map (listen_and_serve http_handler use_http2 true limited false) d.https
    ++ map (listen_and_serve proxy_handler use_http2 false limited false) d.proxy
    ++ map (listen_and_serve http_handler use_http2 true limited true) d.https_proxyv2
    ++ listen_metrics_fd d.listen_metrics
