-- ===== src/Jail/Wired.antt =====
-- daemon.go: the descriptors of the listeners in the process that is started.
use gitlab_pages_mirror.Common.{
  ℕ, zero, suc, ◌-◌, ◌≤◌, ◌≡◌, refl, subst, some, List, [], ◌∷◌, ◌++◌, length, get_elem?,
  get_elem?-append, get_elem?-append_last, arith,
}
use gitlab_pages_mirror.Jail.Daemon.{
  Descriptors, daemon_update_fd, daemon_update_fds, update_metrics, update_fds,
}

-- Entry i of the files becomes descriptor 3 + i of the process: a descriptor of the process that
-- leads to a file.
pub record LeadsTo (extra_files : List ℕ) (child_fd fd : ℕ) : Type 0 where
  pub inherited : 3 ≤ child_fd
  pub file : get_elem? extra_files (child_fd - 3) ≡ some fd

-- Descriptors of the process for files, one for each and in their order.
pub data AllLead (extra_files : List ℕ) : List ℕ → List ℕ → Type 0 where
  none_lead : AllLead extra_files [] []
  more_lead :
      {child_fd fd : ℕ} {child_fds fds : List ℕ}
      → LeadsTo extra_files child_fd fd
      → AllLead extra_files child_fds fds
      → AllLead extra_files (child_fd ∷ child_fds) (fd ∷ fds)

-- What is there when files are added stays where it is.
record Grows (xs ys : List ℕ) : Type 0 where
  stays : (i v : ℕ) → get_elem? xs i ≡ some v → get_elem? ys i ≡ some v

Grows-trans : {xs ys zs : List ℕ} → Grows xs ys → Grows ys zs → Grows xs zs
Grows-trans g h = record { stays = λ i v e. h.stays i v (g.stays i v e) }

LeadsTo-Grows : {xs ys : List ℕ} {c fd : ℕ} → Grows xs ys → LeadsTo xs c fd → LeadsTo ys c fd
LeadsTo-Grows {c = c} {fd = fd} g l = record {
  inherited = l.inherited;
  file = g.stays (c - 3) fd l.file;
}

AllLead-Grows : {xs ys cs fds : List ℕ} → Grows xs ys → AllLead xs cs fds → AllLead ys cs fds
AllLead-Grows g none_lead = none_lead
AllLead-Grows g (more_lead l rest) = more_lead (LeadsTo-Grows g l) (AllLead-Grows g rest)

daemon_update_fd-Grows : (xs : List ℕ) (fd : ℕ) → Grows xs (daemon_update_fd xs fd).1
unfolding daemon_update_fd
daemon_update_fd-Grows xs fd = record { stays = λ i v h. get_elem?-append xs (fd ∷ []) i v h }

daemon_update_fd-LeadsTo :
    (xs : List ℕ) (fd : ℕ) → LeadsTo (daemon_update_fd xs fd).1 (daemon_update_fd xs fd).0 fd
unfolding daemon_update_fd
daemon_update_fd-LeadsTo xs fd = record {
  inherited = omega arith;
  file =
      subst (λ n. get_elem? (xs ++ fd ∷ []) n ≡ some fd) {x = length xs} (omega arith)
        (get_elem?-append_last xs fd);
}

daemon_update_fds-Grows : (xs fds : List ℕ) → Grows xs (daemon_update_fds xs fds).1
unfolding daemon_update_fds
daemon_update_fds-Grows xs [] = record { stays = λ i v h. h }
daemon_update_fds-Grows xs (fd ∷ fds) =
    Grows-trans (daemon_update_fd-Grows xs fd)
      (daemon_update_fds-Grows (daemon_update_fd xs fd).1 fds)

daemon_update_fds-AllLead :
    (xs fds : List ℕ) → AllLead (daemon_update_fds xs fds).1 (daemon_update_fds xs fds).0 fds
unfolding daemon_update_fds
daemon_update_fds-AllLead xs [] = none_lead
daemon_update_fds-AllLead xs (fd ∷ fds) =
    more_lead
      (LeadsTo-Grows (daemon_update_fds-Grows (daemon_update_fd xs fd).1 fds)
        (daemon_update_fd-LeadsTo xs fd))
      (daemon_update_fds-AllLead (daemon_update_fd xs fd).1 fds)

update_metrics-Grows : (xs : List ℕ) (fd : ℕ) → Grows xs (update_metrics xs fd).1
update_metrics-Grows xs zero = record { stays = λ i v h. h }
update_metrics-Grows xs (suc fd) = daemon_update_fd-Grows xs (suc fd)

-- A descriptor for the metrics, or the 0 that stands for none.
pub data MetricsLead (extra_files : List ℕ) : ℕ → ℕ → Type 0 where
  no_metrics : MetricsLead extra_files 0 0
  metrics_lead :
      {child_fd fd : ℕ}
      → LeadsTo extra_files child_fd (suc fd)
      → MetricsLead extra_files child_fd (suc fd)

update_metrics-MetricsLead :
    (xs : List ℕ) (fd : ℕ) → MetricsLead (update_metrics xs fd).1 (update_metrics xs fd).0 fd
update_metrics-MetricsLead xs zero = no_metrics
update_metrics-MetricsLead xs (suc fd) = metrics_lead (daemon_update_fd-LeadsTo xs (suc fd))

-- The configuration for the process, whose descriptors lead to the files of the original ones.
pub record IsWired (files : List ℕ) (child config : Descriptors) : Type 0 where
  pub http : AllLead files child.http config.http
  pub https : AllLead files child.https config.https
  pub proxy : AllLead files child.proxy config.proxy
  pub https_proxyv2 : AllLead files child.https_proxyv2 config.https_proxyv2
  pub metrics : MetricsLead files child.listen_metrics config.listen_metrics

-- The configuration that the daemon passes on has, for each listener and for the metrics, in their
-- order, the number under which the started process inherits that listener's file; the file of the
-- configuration itself stays its descriptor 3.
pub update_fds-IsWired :
    (config_reader : ℕ) (config : Descriptors)
    → IsWired
        (update_fds (config_reader ∷ []) config).1
        (update_fds (config_reader ∷ []) config).0
        config
      × LeadsTo (update_fds (config_reader ∷ []) config).1 3 config_reader
unfolding update_fds
update_fds-IsWired config_reader config =
    let f0 = config_reader ∷ [] in
    let f1 = (daemon_update_fds f0 config.http).1 in
    let f2 = (daemon_update_fds f1 config.https).1 in
    let f3 = (daemon_update_fds f2 config.proxy).1 in
    let f4 = (daemon_update_fds f3 config.https_proxyv2).1 in
    let g4 = update_metrics-Grows f4 config.listen_metrics in
    let g3 = Grows-trans (daemon_update_fds-Grows f3 config.https_proxyv2) g4 in
    let g2 = Grows-trans (daemon_update_fds-Grows f2 config.proxy) g3 in
    let g1 = Grows-trans (daemon_update_fds-Grows f1 config.https) g2 in
    let g0 = Grows-trans (daemon_update_fds-Grows f0 config.http) g1 in
    (
      record {
        http = AllLead-Grows g1 (daemon_update_fds-AllLead f0 config.http);
        https = AllLead-Grows g2 (daemon_update_fds-AllLead f1 config.https);
        proxy = AllLead-Grows g3 (daemon_update_fds-AllLead f2 config.proxy);
        https_proxyv2 = AllLead-Grows g4 (daemon_update_fds-AllLead f3 config.https_proxyv2);
        metrics = update_metrics-MetricsLead f4 config.listen_metrics;
      },
      LeadsTo-Grows g0 (record { inherited = omega arith; file = refl }),
    )
