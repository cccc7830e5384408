-- ===== src/Jail/Available.antt =====
-- daemon.go: the jail is set up when the files that it takes are there.
use gitlab_pages_mirror.Common.{
  ℕ, Text, codes, Bool, true, false, ◌≡◌, refl, ap, ◌∙◌, ◌++◌, subst, some, [], Result, ok, err,
  ◌>>=◌, Gives, gives, fails, if◌then◌else◌, text_eq,
}
use gitlab_pages_mirror.Jail.{
  Os, Jail, FileInfo, put_file, mk_dir, char_dev, char_dev_of, char_dev_with, copy, copy_to,
  copy_of, into,
}
use gitlab_pages_mirror.Jail.Daemon.{
  Cmd, Environment, jailed, device, executable, resolver, hosts, certs, jail_create, jail_daemon,
  jail_daemon_certs, with_pages, daemonize_jail, chroot_daemon, directory_perm,
}
use gitlab_pages_mirror.Jail.Shapes.{IsReady, root_of, daemonize_jail-IsReady}

-- A file that CopyTo accepts, and a device that CharDev accepts.
pub data IsFile : Result ℕ FileInfo → Type 0 where
  is_file : (fi : FileInfo) → fi.mode.is_dir ≡ false → IsFile (ok fi)

pub data IsDevice : Result ℕ FileInfo → Type 0 where
  is_device :
      (fi : FileInfo) (rdev : ℕ)
      → fi.mode.is_char_device ≡ true
      → fi.rdev ≡ some rdev
      → IsDevice (ok fi)

-- What the jail of the daemon is filled with.
pub record IsAvailable (O : Os) (s : O.State) (in_place : Bool) (program : Text) : Type 0 where
  pub executable : IsFile (O.stat program s)
  pub urandom : if in_place then Unit {0} else IsDevice (O.stat (codes "/dev/urandom") s)
  pub random : if in_place then Unit {0} else IsDevice (O.stat (codes "/dev/random") s)
  pub resolver : if in_place then Unit {0} else IsFile (O.stat (codes "/etc/resolv.conf") s)
  pub hosts : if in_place then Unit {0} else IsFile (O.stat (codes "/etc/hosts") s)

-- A result that is there.
abbrev IsOk {ℓ κ} : {E : Type ℓ} {A : Type κ} → Result E A → Type (ℓ ⊔ κ)
IsOk {E = E} {A = A} r = (a : A) × (r ≡ ok a)

bind-IsOk {ℓ κ μ} :
    {E : Type ℓ} {A : Type κ} {B : Type μ} (r : Result E A) (f : A → Result E B)
    → IsOk r
    → ((a : A) → IsOk (f a))
    → IsOk (r >>= f)
bind-IsOk r f (a, h) k = let (b, e) = k a in (b, ap (λ x. x >>= f) h ∙ e)

char_dev_of-IsOk :
    (p : Text) (r : Result ℕ FileInfo) (j : Jail) → IsDevice r → IsOk (jailed (char_dev_of p r j))
unfolding char_dev_of char_dev_with
char_dev_of-IsOk p _ j (is_device fi n h k) =
    (put_file p (record { path = p; mode = fi.mode; rdev = n }) j, rw (h, k) refl)

copy_of-IsOk :
    (d p : Text) (r : Result ℕ FileInfo) (j : Jail) → IsFile r → IsOk (jailed (copy_of d p r j))
unfolding copy_of
copy_of-IsOk d p _ j (is_file fi h) =
    (put_file d (record { path = p; mode = fi.mode; rdev = 0 }) j, rw h refl)

abbrev value_or {ℓ κ} : {E : Type ℓ} {A : Type κ} → A → Result E A → A
value_or d (ok a) = a
value_or d (err e) = d

module _ (O : Os) (s : O.State) where
  -- Without certificates there is nothing to add.
  certs-IsOk :
      (e : Environment) (cmd : Cmd) (j : Jail)
      → e.ssl_cert_file ≡ []
      → e.ssl_cert_dir ≡ []
      → IsOk (certs O s e cmd j)
  unfolding certs jail_daemon_certs text_eq
  certs-IsOk e cmd j h k = ((j, cmd), rw (h, k) refl)

  with_pages-IsOk : (r : Text) (p : Jail × Cmd) → IsOk (with_pages O s r p)
  unfolding with_pages
  with_pages-IsOk r (j, cmd) = (_, refl)

  jail_create-IsOk :
      (t : Text) (now : ℕ) (e : Environment) (cmd : Cmd)
      → IsAvailable O s false cmd.path
      → e.ssl_cert_file ≡ []
      → e.ssl_cert_dir ≡ []
      → IsOk (jail_create O s t now e cmd)
  unfolding jail_create device executable resolver hosts char_dev copy copy_to
  jail_create-IsOk t now e cmd av h k =
      bind-IsOk _ (certs O s e cmd)
        (bind-IsOk _ (hosts O s)
          (bind-IsOk _ (resolver O s)
            (bind-IsOk _ (executable O s cmd)
              (bind-IsOk _ (device O s (codes "/dev/random"))
                (char_dev_of-IsOk (codes "/dev/urandom") _ _ av.urandom)
                λ j. char_dev_of-IsOk (codes "/dev/random") _ j av.random)
              λ j. copy_of-IsOk (codes "/gitlab-pages") cmd.path _ j av.executable)
            λ j.
              copy_of-IsOk (codes "/etc/resolv.conf") (codes "/etc/resolv.conf") _
                (mk_dir (codes "/etc") directory_perm j) av.resolver)
          λ j. copy_of-IsOk (codes "/etc/hosts") (codes "/etc/hosts") _ j av.hosts)
        λ j. certs-IsOk e cmd j h k

  jail-IsOk :
      (in_place : Bool) (wd suffix pages_root temp_dir : Text) (now : ℕ) (e : Environment)
      (cmd : Cmd)
      → IsAvailable O s in_place cmd.path
      → e.ssl_cert_file ≡ []
      → e.ssl_cert_dir ≡ []
      → IsOk (daemonize_jail O s in_place (ok wd) (ok suffix) pages_root temp_dir now e cmd)
  unfolding daemonize_jail jail_daemon chroot_daemon copy_to
  jail-IsOk false wd suffix r t now e cmd av h k =
      bind-IsOk _ (with_pages O s r) (jail_create-IsOk t now e cmd av h k) (with_pages-IsOk r)
  jail-IsOk true wd suffix r t now e cmd av h k =
      bind-IsOk _ _ (copy_of-IsOk (codes "/.daemon." ++ suffix) cmd.path _ (into wd) av.executable)
        λ j. (_, refl)

  given {ℓ κ μ} :
      {E : Type ℓ} {A : Type κ} {P : A → Type μ} (r : Result E A) (a : A)
      → r ≡ ok a
      → Gives P r
      → P a
  given {P = P} _ a h (gives b p) = subst P (ap (value_or a) h) p
  given _ a h (fails e) = cc

  -- When the files and the devices that go into the jail are there and no certificates are
  -- configured, daemonize sets a jail up. In place its root is the working directory, which is not to
  -- be deleted, and it has no bind mount; else its root is the directory gitlab-pages- with the time
  -- in its name below the directory for temporary files, which may be deleted, and it has exactly one
  -- bind mount, so that Build does not refuse it for their number. The process gets that root.
  pub daemonize_jail_lem :
      (in_place : Bool) (wd suffix pages_root temp_dir : Text) (now : ℕ) (e : Environment)
      (cmd : Cmd)
      → IsAvailable O s in_place cmd.path
      → e.ssl_cert_file ≡ []
      → e.ssl_cert_dir ≡ []
      → (p : Jail × Cmd) × (daemonize_jail O s in_place
            (ok wd)
            (ok suffix)
            pages_root
            temp_dir
            now
            e
            cmd
          ≡ ok p)
        × IsReady O s in_place (root_of in_place wd temp_dir now) p
  daemonize_jail_lem in_place wd suffix r t now e cmd av h k =
      let (p, eq) = jail-IsOk in_place wd suffix r t now e cmd av h k in
      (
        p,
        eq,
        given {P = IsReady O s in_place (root_of in_place wd t now)} _ p eq
            (daemonize_jail-IsReady O s in_place wd (ok suffix) r t now e cmd),
      )
