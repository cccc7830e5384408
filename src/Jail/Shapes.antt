-- ===== src/Jail/Shapes.antt =====
-- daemon.go: the jail that is set up before the daemon starts.
use gitlab_pages_mirror.Common.{
  ℕ, Text, codes, Bool, true, false, not, ◌≡◌, refl, ap, Option, none, some, List, [], ◌∷◌, ◌++◌,
  length, drop, split, if◌then◌else◌, if-cases, Result, ok, err, Gives, gives, fails, bind-Gives,
  dict_empty, dict_put, dict_remove, path_join, decimal, ◌&&◌, ◌||◌, text_eq,
}
use gitlab_pages_mirror.Jail.{
  Os, Jail, JailError, FileMode, FileInfo, PathAndMode, put_file, into, create, mk_dir, mk_dirs,
  mk_dir_all, char_dev, char_dev_of, char_dev_with, copy_to, copy_of, copy, bind,
}
use gitlab_pages_mirror.Jail.Daemon.{
  Cmd, Environment, create_timestamped, jailed, or_same, chroot_daemon, copy_certs, copied_certs,
  jail_copy_cert_dir, with_cert_file, with_cert_dir, jail_daemon_certs, jail_create, jail_daemon,
  daemonize_jail, with_variable, inside, certs, device, executable, resolver, hosts, with_pages,
  jail_certs_file, jail_certs_dir, directory_perm,
}

-- A jail without bind mounts, by whether its root may be deleted, and its root.
record IsPlain (kind : Bool × Text) (j : Jail) : Type 0 where
  mounts : j.bind_mounts ≡ []
  deletion : j.delete_root ≡ kind.0
  root : j.root ≡ kind.1

-- The root that daemonize chooses: the working directory, or one of its own.
abbrev pub root_of : Bool → Text → Text → ℕ → Text
root_of in_place wd temp_dir now =
    if in_place
    then wd
    else path_join (temp_dir ∷ (codes "gitlab-pages" ++ codes "-" ++ decimal now) ∷ [])

into-IsPlain : (p : Text) → IsPlain (false, p) (into p)
unfolding into dict_empty
into-IsPlain p = record { mounts = refl; deletion = refl; root = refl }

create_timestamped-IsPlain :
    (t p : Text) (now perm : ℕ)
    → IsPlain
        (true, path_join (t ∷ (p ++ codes "-" ++ decimal now) ∷ []))
        (create_timestamped t p now perm)
unfolding create_timestamped create into dict_empty
create_timestamped-IsPlain t p now perm = record { mounts = refl; deletion = refl; root = refl }

mk_dir-IsPlain :
    (p : Text) (m : ℕ) (j : Jail) {b : Bool × Text} → IsPlain b j → IsPlain b (mk_dir p m j)
unfolding mk_dir
mk_dir-IsPlain p m j i = record { mounts = i.mounts; deletion = i.deletion; root = i.root }

mk_dirs-IsPlain :
    (c : Text) (ps : List Text) (m : ℕ) (j : Jail) {b : Bool × Text}
    → IsPlain b j
    → IsPlain b (mk_dirs c ps m j)
unfolding mk_dirs
mk_dirs-IsPlain c [] m j i = i
mk_dirs-IsPlain c (p ∷ ps) m j i =
    mk_dirs-IsPlain (path_join (c ∷ p ∷ [])) ps m _ (mk_dir-IsPlain (path_join (c ∷ p ∷ [])) m j i)

put_file-IsPlain :
    (d : Text) (p : PathAndMode) (j : Jail) {b : Bool × Text}
    → IsPlain b j
    → IsPlain b (put_file d p j)
unfolding put_file
put_file-IsPlain d p j i = record { mounts = i.mounts; deletion = i.deletion; root = i.root }

with_number :
    (p : Text) (m : FileMode) (o : Option ℕ) (j : Jail) {b : Bool × Text}
    → IsPlain b j
    → Gives (IsPlain b) (jailed (char_dev_with p m o j))
unfolding char_dev_with
with_number p m none j i = fails _
with_number p m (some n) j i = gives _ (put_file-IsPlain p _ j i)

char_dev_of-IsPlain :
    (p : Text) (r : Result ℕ FileInfo) (j : Jail) {b : Bool × Text}
    → IsPlain b j
    → Gives (IsPlain b) (jailed (char_dev_of p r j))
unfolding char_dev_of
char_dev_of-IsPlain p (err e) j i = fails _
char_dev_of-IsPlain p (ok fi) j {b} i =
    if-cases (λ (r : Result JailError Jail). Gives (IsPlain b) (jailed r)) fi.mode.is_char_device _
      _ (λ h. with_number p fi.mode fi.rdev j i) λ h. fails _

copy_of-IsPlain :
    (d p : Text) (r : Result ℕ FileInfo) (j : Jail) {b : Bool × Text}
    → IsPlain b j
    → Gives (IsPlain b) (jailed (copy_of d p r j))
unfolding copy_of
copy_of-IsPlain d p (err e) j i = fails _
copy_of-IsPlain d p (ok fi) j {b} i =
    if-cases (λ (r : Result JailError Jail). Gives (IsPlain b) (jailed r)) fi.mode.is_dir _ _
      (λ h. fails _) λ h. gives _ (put_file-IsPlain d _ j i)

copy_to-IsPlain :
    (O : Os) (s : O.State) (d p : Text) (j : Jail) {b : Bool × Text}
    → IsPlain b j
    → Gives (IsPlain b) (jailed (copy_to O d p s j))
unfolding copy_to
copy_to-IsPlain O s d p j i = copy_of-IsPlain d p (O.stat p s) j i

or_same-IsPlain :
    (j : Jail) (r : Result JailError Jail) {b : Bool × Text}
    → IsPlain b j
    → Gives (IsPlain b) (jailed r)
    → IsPlain b (or_same j r)
or_same-IsPlain j (ok k) i (gives _ h) = h
or_same-IsPlain j (err e) i g = i

copy_certs-IsPlain :
    (O : Os) (s : O.State) (d c : Text) (fs : List FileInfo) (j : Jail) {b : Bool × Text}
    → IsPlain b j
    → IsPlain b (copy_certs O s d c fs j)
unfolding copy_certs
copy_certs-IsPlain O s d c [] j i = i
copy_certs-IsPlain O s d c (f ∷ fs) j {b} i = copy_certs-IsPlain O s d c fs _ (
    if-cases (IsPlain b) (not (f.mode.is_regular || f.mode.is_symlink)) _ _ (λ h. i)
      λ h.
        or_same-IsPlain j _ i
          (copy_to-IsPlain O s (c ++ codes "/" ++ f.name) (d ++ codes "/" ++ f.name) j i))

module _ (O : Os) (s : O.State) (cage : Text) where
  -- The jail of a pair.
  IsPlainPair : Jail × Cmd → Type 0
  IsPlainPair p = IsPlain (true, cage) p.0

  jail_copy_cert_dir-IsPlain :
      (d c : Text) (r : Result ℕ (List FileInfo)) (j : Jail)
      → IsPlain (true, cage) j
      → Gives (IsPlain (true, cage)) (copied_certs O s d c r j)
  jail_copy_cert_dir-IsPlain d c (ok fs) j i = gives _ (copy_certs-IsPlain O s d c fs j i)
  jail_copy_cert_dir-IsPlain d c (err e) j i = fails _

  with_cert_file-IsPlain :
      (f : Text) (p : Jail × Cmd)
      → IsPlain (true, cage) p.0
      → Gives IsPlainPair (with_cert_file O s f p)
  unfolding with_cert_file IsPlainPair
  with_cert_file-IsPlain [] p i = gives p i
  with_cert_file-IsPlain (c ∷ f) (j, cmd) i =
      bind-Gives _ (with_variable (codes "SSL_CERT_FILE=" ++ jail_certs_file) cmd)
        (copy_to-IsPlain O s jail_certs_file (c ∷ f) j i) λ k h. gives _ h

  with_cert_dir-IsPlain :
      (d : Text) (p : Jail × Cmd)
      → IsPlain (true, cage) p.0
      → Gives IsPlainPair (with_cert_dir O s d p)
  unfolding with_cert_dir jail_copy_cert_dir IsPlainPair
  with_cert_dir-IsPlain [] p i = gives p i
  with_cert_dir-IsPlain (c ∷ d) (j, cmd) i =
      bind-Gives _ (with_variable (codes "SSL_CERT_DIR=" ++ jail_certs_dir) cmd)
        (jail_copy_cert_dir-IsPlain (c ∷ d) jail_certs_dir (O.read_dir (c ∷ d) s) _
          (mk_dir-IsPlain jail_certs_dir directory_perm j i))
        λ k h. gives _ h

  certs-IsPlain :
      (e : Environment) (cmd : Cmd) (j : Jail)
      → IsPlain (true, cage) j
      → Gives IsPlainPair (certs O s e cmd j)
  unfolding certs jail_daemon_certs IsPlainPair
  certs-IsPlain e cmd j i =
      if-cases (Gives IsPlainPair) (text_eq e.ssl_cert_file [] && text_eq e.ssl_cert_dir []) _ _
        (λ h. gives _ i)
        λ h.
          bind-Gives _ (with_cert_dir O s e.ssl_cert_dir)
            (with_cert_file-IsPlain e.ssl_cert_file
              (mk_dir (codes "/etc/ssl") directory_perm j, cmd)
              (mk_dir-IsPlain (codes "/etc/ssl") directory_perm j i))
            λ p k. with_cert_dir-IsPlain e.ssl_cert_dir p k

module _ (O : Os) (s : O.State) where
  jail_create-IsPlain :
      (t : Text) (now : ℕ) (e : Environment) (cmd : Cmd)
      → Gives (IsPlainPair O s (root_of false [] t now)) (jail_create O s t now e cmd)
  unfolding jail_create device executable resolver hosts char_dev copy
  jail_create-IsPlain t now e cmd =
      bind-Gives _ (certs O s e cmd)
        (bind-Gives _ (hosts O s)
          (bind-Gives _ (resolver O s)
            (bind-Gives _ (executable O s cmd)
              (bind-Gives _ (device O s (codes "/dev/random"))
                (char_dev_of-IsPlain (codes "/dev/urandom") (O.stat (codes "/dev/urandom") s) _ (
                  mk_dir-IsPlain (codes "/dev") directory_perm _
                    (create_timestamped-IsPlain t (codes "gitlab-pages") now directory_perm)))
                λ j i.
                  char_dev_of-IsPlain (codes "/dev/random") (O.stat (codes "/dev/random") s) j i)
              λ j i. copy_to-IsPlain O s (codes "/gitlab-pages") cmd.path j i)
            λ j i.
              copy_to-IsPlain O s (codes "/etc/resolv.conf") (codes "/etc/resolv.conf") _
                (mk_dir-IsPlain (codes "/etc") directory_perm j i))
          λ j i. copy_to-IsPlain O s (codes "/etc/hosts") (codes "/etc/hosts") j i)
        (certs-IsPlain O s (root_of false [] t now) e cmd)

  -- What Build and Dispose need of the jail: few bind mounts, and its root only deleted when it is
  -- one of its own; the process goes inside it.
  pub record IsReady (in_place : Bool) (chosen : Text) (p : Jail × Cmd) : Type 0 where
    pub few : length p.0.bind_mounts ≡ (if in_place then 0 else 1)
    pub deletion : p.0.delete_root ≡ not in_place
    pub root : p.0.root ≡ chosen
    pub inside : p.1.chroot ≡ p.0.root

  with_pages-IsReady :
      (root r : Text) (p : Jail × Cmd)
      → IsPlain (true, root) p.0
      → Gives (IsReady false root) (with_pages O s r p)
  unfolding with_pages bind mk_dir_all dict_put
  with_pages-IsReady root r (j, cmd) i =
      let k = mk_dirs-IsPlain [] (drop 1 (split b'/' r)) directory_perm j i in
      gives _ (record {
        few = rw (k.mounts, dict_remove) refl;
        deletion = k.deletion;
        root = k.root;
        inside = refl;
      })

  -- The jail that daemonize sets up, if it can, for a working directory that is known.
  pub daemonize_jail-IsReady :
      (in_place : Bool) (wd : Text) (suffix : Result ℕ Text) (pages_root temp_dir : Text) (now : ℕ)
      (e : Environment) (cmd : Cmd)
      → Gives
          (IsReady in_place (root_of in_place wd temp_dir now))
          (daemonize_jail O s in_place (ok wd) suffix pages_root temp_dir now e cmd)
  unfolding daemonize_jail jail_daemon chroot_daemon IsPlainPair
  daemonize_jail-IsReady false wd suffix r t now e cmd =
      bind-Gives _ (with_pages O s r) (jail_create-IsPlain t now e cmd)
        (with_pages-IsReady (root_of false [] t now) r)
  daemonize_jail-IsReady true wd (err n) r t now e cmd = fails _
  daemonize_jail-IsReady true wd (ok suffix) r t now e cmd =
      bind-Gives _ (inside (codes "/.daemon." ++ suffix) (codes "/") cmd)
        (copy_to-IsPlain O s (codes "/.daemon." ++ suffix) cmd.path (into wd) (into-IsPlain wd))
        λ j i.
          gives _ (record {
            few = ap length i.mounts;
            deletion = i.deletion;
            root = i.root;
            inside = refl;
          })
