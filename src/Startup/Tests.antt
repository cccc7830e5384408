-- ===== src/Startup/Tests.antt =====
-- Two addresses for HTTP, one for HTTPS behind a proxy, and one for the metrics.
use gitlab_pages_mirror.Common.{ℕ, suc, Text, codes, true, false, ◌≡◌, refl, some, List, [], ◌∷◌}
use gitlab_pages_mirror.Common.Int.{pos}
use gitlab_pages_mirror.Config.Flags.{MultiStringFlag}
use gitlab_pages_mirror.Jail.Daemon.{Descriptors, update_fds}
use gitlab_pages_mirror.Jail.Wired.{LeadsTo}
use gitlab_pages_mirror.Startup.{
  Addresses, Network, http_handler, metrics_handler, shared_limit, keep_alive, proxy_protocol,
  tls_layer, create_app_listeners, create_metrics_listener, run,
}
use gitlab_pages_mirror.Startup.Services.{AllSame, daemon_serves}

-- Every socket gets the next descriptor.
abbrev counting : Network
counting = record { State = ℕ; create_socket = λ addr s. some (s, suc s) }

abbrev flag : List Text → MultiStringFlag
flag value = record { value = value; separator = codes "," }

abbrev addresses : Addresses
addresses = record {
  listen_http = flag (codes ":80,:81" ∷ []);
  listen_https = flag [];
  listen_proxy = flag [];
  listen_https_proxyv2 = flag (codes ":444" ∷ []);
  metrics_address = codes ":9235";
}

abbrev listeners : Descriptors
listeners = record {
  http = 8 ∷ 9 ∷ [];
  https = [];
  proxy = [];
  https_proxyv2 = 10 ∷ [];
  listen_metrics = 11;
}

created :
    (create_app_listeners counting addresses 8 ≡ some (record listeners { listen_metrics = 0 }, 11))
    × (create_metrics_listener counting (codes ":9235") (record listeners { listen_metrics = 0 }) 11
        ≡ some (listeners, 12))
unfolding create_app_listeners create_metrics_listener
created = (refl, refl)

passed_on :
    run true (pos 5) (update_fds (7 ∷ []) listeners).0
    ≡ record {
      fd = 4;
      handler = http_handler;
      use_http2 = true;
      layers = shared_limit ∷ keep_alive ∷ [];
    }
      ∷ record {
        fd = 5;
        handler = http_handler;
        use_http2 = true;
        layers = shared_limit ∷ keep_alive ∷ [];
      }
      ∷ record {
        fd = 6;
        handler = http_handler;
        use_http2 = true;
        layers = shared_limit ∷ keep_alive ∷ proxy_protocol ∷ tls_layer ∷ [];
      }
      ∷ record { fd = 7; handler = metrics_handler; use_http2 = false; layers = [] }
      ∷ []
unfolding run update_fds
passed_on = refl

daemon_serves_example :
    AllSame
      (update_fds (7 ∷ []) listeners).1
      (run true (pos 5) (update_fds (7 ∷ []) listeners).0)
      (run true (pos 5) listeners)
    × LeadsTo (update_fds (7 ∷ []) listeners).1 3 7
daemon_serves_example = daemon_serves true (pos 5) 7 listeners
