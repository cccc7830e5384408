-- ===== src/Jail/Daemon.antt =====
-- daemon.go: the jail of the daemon, and the descriptors that its process is given. Logs and the
-- start of the process are left out.
use gitlab_pages_mirror.Common.{
  ℕ, zero, suc, ◌+◌, Text, codes, Bool, ◌&&◌, ◌||◌, not, List, [], ◌∷◌, ◌++◌, length, if◌then◌else◌,
  text_eq, path_join, decimal, Result, ok, err, ◌>>=◌,
}
use gitlab_pages_mirror.Jail.{
  Os, Jail, JailError, FileInfo, into, create, mk_dir, mk_dir_all, char_dev, copy_to, copy, bind,
}

-- The fields of exec.Cmd that the set-up of the jail writes.
pub record Cmd : Type 0 where
  pub path : Text
  pub dir : Text
  pub chroot : Text
  pub env : List Text

-- SSL_CERT_FILE and SSL_CERT_DIR, empty when they are not set.
pub record Environment : Type 0 where
  pub ssl_cert_file : Text
  pub ssl_cert_dir : Text

pub data DaemonError : Type 0 where
  jail_failed : JailError → DaemonError
  no_working_directory no_randomness cert_dir_unreadable : ℕ → DaemonError

-- 0755
abbrev pub directory_perm : ℕ
directory_perm = 493

-- CreateTimestamped
unfoldable pub create_timestamped : Text → Text → ℕ → ℕ → Jail
unfolding path_join decimal create
create_timestamped temp_dir prefix now perm =
    create (path_join (temp_dir ∷ (prefix ++ codes "-" ++ decimal now) ∷ [])) perm

abbrev pub jailed : Result JailError Jail → Result DaemonError Jail
jailed (ok j) = ok j
jailed (err e) = err (jail_failed e)

-- A copy whose error is only logged.
abbrev pub or_same : Jail → Result JailError Jail → Jail
or_same j (ok j') = j'
or_same j (err e) = j

abbrev pub jail_certs_file : Text
jail_certs_file = codes "/etc/ssl/ca-bundle.pem"

abbrev pub jail_certs_dir : Text
jail_certs_dir = codes "/etc/ssl/certs"

-- The environment of the process, extended.
abbrev pub with_variable : Text → Cmd → Jail → Result DaemonError (Jail × Cmd)
with_variable v cmd cage = ok (cage, record cmd { env = cmd.env ++ v ∷ [] })

-- The process inside the jail.
abbrev pub inside : Text → Text → Cmd → Jail → Result DaemonError (Jail × Cmd)
inside path dir cmd cage = ok (cage, record cmd { chroot = cage.root; path = path; dir = dir })

module _ (O : Os) (s : O.State) where
  -- `suffix` is the random part in hexadecimal digits.
  unfoldable pub chroot_daemon :
      Result ℕ Text → Result ℕ Text → Cmd → Result DaemonError (Jail × Cmd)
  unfolding into copy_to
  chroot_daemon (err e) suffix cmd = err (no_working_directory e)
  chroot_daemon (ok wd) (err e) cmd = err (no_randomness e)
  chroot_daemon (ok wd) (ok suffix) cmd =
      let temp_executable_path = codes "/.daemon." ++ suffix in
      jailed (copy_to O temp_executable_path cmd.path s (into wd))
      >>= inside temp_executable_path (codes "/") cmd

  unfoldable pub copy_certs : Text → Text → List FileInfo → Jail → Jail
  unfolding copy_to
  copy_certs ssl_cert_dir certs_dir [] cage = cage
  copy_certs ssl_cert_dir certs_dir (fi ∷ entries) cage =
      copy_certs ssl_cert_dir certs_dir entries (
        if not (fi.mode.is_regular || fi.mode.is_symlink)
        then cage
        else or_same cage (
            copy_to O (certs_dir ++ codes "/" ++ fi.name) (ssl_cert_dir ++ codes "/" ++ fi.name) s
              cage))

  abbrev pub copied_certs : Text → Text → Result ℕ (List FileInfo) → Jail → Result DaemonError Jail
  copied_certs ssl_cert_dir certs_dir (err e) cage = err (cert_dir_unreadable e)
  copied_certs ssl_cert_dir certs_dir (ok entries) cage =
      ok (copy_certs ssl_cert_dir certs_dir entries cage)

  unfoldable pub jail_copy_cert_dir : Text → Text → Jail → Result DaemonError Jail
  unfolding copy_certs
  jail_copy_cert_dir ssl_cert_dir certs_dir cage =
      copied_certs ssl_cert_dir certs_dir (O.read_dir ssl_cert_dir s) cage

  -- The parts of jailDaemonCerts for the file and for the directory.
  unfoldable pub with_cert_file : Text → Jail × Cmd → Result DaemonError (Jail × Cmd)
  unfolding copy_to
  with_cert_file [] p = ok p
  with_cert_file (c ∷ ssl_cert_file) (cage, cmd) =
      jailed (copy_to O jail_certs_file (c ∷ ssl_cert_file) s cage)
      >>= with_variable (codes "SSL_CERT_FILE=" ++ jail_certs_file) cmd

  unfoldable pub with_cert_dir : Text → Jail × Cmd → Result DaemonError (Jail × Cmd)
  unfolding jail_copy_cert_dir mk_dir
  with_cert_dir [] p = ok p
  with_cert_dir (c ∷ ssl_cert_dir) (cage, cmd) =
      jail_copy_cert_dir (c ∷ ssl_cert_dir) jail_certs_dir
        (mk_dir jail_certs_dir directory_perm cage)
      >>= with_variable (codes "SSL_CERT_DIR=" ++ jail_certs_dir) cmd

  unfoldable pub jail_daemon_certs : Environment → Jail × Cmd → Result DaemonError (Jail × Cmd)
  unfolding with_cert_file with_cert_dir mk_dir text_eq
  jail_daemon_certs e (cage, cmd) =
      if text_eq e.ssl_cert_file [] && text_eq e.ssl_cert_dir []
      then ok (cage, cmd)
      else (with_cert_file e.ssl_cert_file (mk_dir (codes "/etc/ssl") directory_perm cage, cmd)
          >>= with_cert_dir e.ssl_cert_dir)

  -- The steps of jailCreate.
  unfoldable pub device : Text → Jail → Result DaemonError Jail
  unfolding char_dev
  device path cage = jailed (char_dev O path s cage)

  unfoldable pub executable : Cmd → Jail → Result DaemonError Jail
  unfolding copy_to
  executable cmd cage = jailed (copy_to O (codes "/gitlab-pages") cmd.path s cage)

  unfoldable pub resolver : Jail → Result DaemonError Jail
  unfolding copy mk_dir
  resolver cage =
      jailed (copy O (codes "/etc/resolv.conf") s (mk_dir (codes "/etc") directory_perm cage))

  unfoldable pub hosts : Jail → Result DaemonError Jail
  unfolding copy
  hosts cage = jailed (copy O (codes "/etc/hosts") s cage)

  unfoldable pub certs : Environment → Cmd → Jail → Result DaemonError (Jail × Cmd)
  unfolding jail_daemon_certs
  certs e cmd cage = jail_daemon_certs e (cage, cmd)

  unfoldable pub jail_create : Text → ℕ → Environment → Cmd → Result DaemonError (Jail × Cmd)
  unfolding create_timestamped mk_dir device executable resolver hosts certs
  jail_create temp_dir now e cmd =
      let cage = create_timestamped temp_dir (codes "gitlab-pages") now directory_perm in
      device (codes "/dev/urandom") (mk_dir (codes "/dev") directory_perm cage)
      >>= device (codes "/dev/random")
      >>= executable cmd
      >>= resolver
      >>= hosts
      >>= certs e cmd

  -- The rest of jailDaemon.
  unfoldable pub with_pages : Text → Jail × Cmd → Result DaemonError (Jail × Cmd)
  unfolding mk_dir_all bind
  with_pages pages_root (cage, cmd) =
      inside (codes "/gitlab-pages") pages_root cmd
        (bind pages_root pages_root (mk_dir_all pages_root directory_perm cage))

  unfoldable pub jail_daemon : Text → Text → ℕ → Environment → Cmd → Result DaemonError (Jail × Cmd)
  unfolding jail_create with_pages
  jail_daemon pages_root temp_dir now e cmd =
      jail_create temp_dir now e cmd >>= with_pages pages_root

-- daemonize, up to the jail.
unfoldable pub daemonize_jail :
    (O : Os)
    → O.State
    → Bool
    → Result ℕ Text
    → Result ℕ Text
    → Text
    → Text
    → ℕ
    → Environment
    → Cmd
    → Result DaemonError (Jail × Cmd)
unfolding chroot_daemon jail_daemon
daemonize_jail O s in_place wd suffix pages_root temp_dir now e cmd =
    if in_place
    then chroot_daemon O s wd suffix cmd
    else jail_daemon O s pages_root temp_dir now e cmd

-- daemonUpdateFd: the descriptor of the child, and its files. The first of them is descriptor 3.
unfoldable pub daemon_update_fd : List ℕ → ℕ → ℕ × List ℕ
daemon_update_fd extra_files fd = (3 + length extra_files, extra_files ++ fd ∷ [])

unfoldable pub daemon_update_fds : List ℕ → List ℕ → List ℕ × List ℕ
unfolding daemon_update_fd
daemon_update_fds extra_files [] = ([], extra_files)
daemon_update_fds extra_files (fd ∷ fds) =
    let (child_fd, files) = daemon_update_fd extra_files fd in
    let (child_fds, files') = daemon_update_fds files fds in (child_fd ∷ child_fds, files')

-- The descriptors in the configuration.
pub record Descriptors : Type 0 where
  pub http : List ℕ
  pub https : List ℕ
  pub proxy : List ℕ
  pub https_proxyv2 : List ℕ
  pub listen_metrics : ℕ

abbrev pub update_metrics : List ℕ → ℕ → ℕ × List ℕ
update_metrics extra_files zero = (zero, extra_files)
update_metrics extra_files (suc fd) = daemon_update_fd extra_files (suc fd)

unfoldable pub update_fds : List ℕ → Descriptors → Descriptors × List ℕ
unfolding daemon_update_fds
update_fds extra_files config =
    let (http, files) = daemon_update_fds extra_files config.http in
    let (https, files1) = daemon_update_fds files config.https in
    let (proxy, files2) = daemon_update_fds files1 config.proxy in
    let (https_proxyv2, files3) = daemon_update_fds files2 config.https_proxyv2 in
    let (listen_metrics, files4) = update_metrics files3 config.listen_metrics in
    (
      record {
        http = http;
        https = https;
        proxy = proxy;
        https_proxyv2 = https_proxyv2;
        listen_metrics = listen_metrics;
      },
      files4,
    )
