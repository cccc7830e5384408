-- ===== src/Jail/Tests.antt =====
-- Jails on a system whose state is the paths that exist and those that are mount points.
use gitlab_pages_mirror.Common.{
  ℕ, Text, codes, text_eq, text_eq_refl, has_prefix, dict_put, append-nil, Bool, true, false, ◌≡◌,
  refl, sym, ap, ◌∙◌, Option, none, some, [], if◌then◌else◌, ok, err, not, All, arith,
}
use gitlab_pages_mirror.Common.TextLaws.{has_prefix-append}
use gitlab_pages_mirror.Jail.{Os, Jail, FileInfo, into, create, mk_dir, bind}
use gitlab_pages_mirror.Jail.Building.{World, build}
use gitlab_pages_mirror.Jail.Unmounted.{IsSafe, IsUnmounted}
use gitlab_pages_mirror.Jail.Mounts.{disposals, removals-IsUnmounted}
use gitlab_pages_mirror.Jail.Outcomes.{Outcome, build-Outcome}
use gitlab_pages_mirror.Jail.Daemon.{Cmd, Environment, daemonize_jail}
use gitlab_pages_mirror.Jail.Shapes.{IsReady, root_of}
use gitlab_pages_mirror.Jail.Available.{IsAvailable, is_file, is_device, daemonize_jail_lem}

record SampleDisk : Type 0 where
  paths : Text → Bool
  mounts : Text → Bool

unfoldable upd : (Text → Bool) → Text → Bool → Text → Bool
unfolding text_eq
upd f p b q = if text_eq p q then b else f q

unfoldable without : (Text → Bool) → Text → Text → Bool
unfolding has_prefix
without f p q = if has_prefix q p then false else f q

-- EEXIST
abbrev made : Bool → Text → SampleDisk → Option ℕ × SampleDisk
made true p s = (some 17, s)
made false p s = (none, record s { paths = upd s.paths p true })

abbrev detached : Bool → Text → SampleDisk → Option ℕ × SampleDisk
detached true p s = (none, record s { mounts = upd s.mounts p false })
detached false p s = (some 22, s)

upd_self : (f : Text → Bool) (p : Text) (b : Bool) → upd f p b p ≡ b
unfolding upd
upd_self f p b = rw (text_eq_refl p) refl

upd_keeps : (f : Text → Bool) (p q : Text) (b : Bool) → f q ≡ b → upd f p b q ≡ b
unfolding upd
upd_keeps f p q b h = ground arith

made_makes :
    (b : Bool) (p : Text) (s : SampleDisk) → (made b p s).0 ≡ none → (made b p s).1.paths p ≡ true
made_makes true p s h = cc
made_makes false p s h = upd_self s.paths p true

made_keeps :
    (b : Bool) (p q : Text) (s : SampleDisk) → s.paths q ≡ true → (made b p s).1.paths q ≡ true
made_keeps true p q s h = h
made_keeps false p q s h = upd_keeps s.paths p q true h

made-mounts : (b : Bool) (p q : Text) (s : SampleDisk) → (made b p s).1.mounts q ≡ s.mounts q
made-mounts true p q s = refl
made-mounts false p q s = refl

without_self : (f : Text → Bool) (p : Text) → without f p p ≡ false
unfolding without
without_self f p = rw (ap (λ t. has_prefix t p) (sym (append-nil p)) ∙ has_prefix-append p []) refl

detached_ok :
    (b : Bool) (p : Text) (s : SampleDisk)
    → (detached b p s).0 ≡ none
    → (detached b p s).1.mounts p ≡ false
detached_ok true p s h = upd_self s.mounts p false
detached_ok false p s h = cc

detached_invalid :
    (b : Bool) (p : Text) (s : SampleDisk)
    → s.mounts p ≡ b
    → (detached b p s).0 ≡ some 22
    → (detached b p s).1.mounts p ≡ false
detached_invalid true p s m h = cc
detached_invalid false p s m h = m

detached_adds_none :
    (b : Bool) (p q : Text) (s : SampleDisk)
    → s.mounts q ≡ false
    → (detached b p s).1.mounts q ≡ false
detached_adds_none true p q s h = upd_keeps s.mounts p q false h
detached_adds_none false p q s h = h

no_error : (e : ℕ) → none ≡ some e → ⊥
no_error e h = cc

-- Below /dev there are devices, and files elsewhere.
info : Text → FileInfo
unfolding has_prefix
info name = record {
  name = name;
  mode = record {
    is_dir = false;
    is_regular = not (has_prefix name (codes "/dev/"));
    is_symlink = false;
    is_char_device = has_prefix name (codes "/dev/");
    perm = 420;
  };
  rdev = some 9;
}

abbrev disk : Os
disk = record {
  State = SampleDisk;
  stat = λ p s. if s.paths p then ok (info p) else err 2;
  read_dir = λ p s. ok [];
  open_file = λ p s. if s.paths p then none else some 2;
  mkdir = λ p m s. made (s.paths p) p s;
  mknod = λ p m d s. made (s.paths p) p s;
  create_file = λ p m s. made (s.paths p) p s;
  copy_content = λ p q s. (none, s);
  remove = λ p s. (none, record s { paths = upd s.paths p false });
  remove_all = λ p s. (none, record s { paths = without s.paths p });
  bind_mount = λ src p s. (none, record s { mounts = upd s.mounts p true });
  detach = λ p s. detached (s.mounts p) p s;
  unshare_mounts = λ s. (none, s);
  make_private = λ s. (none, s);
  exists = λ s p. s.paths p;
  mounted = λ s p. s.mounts p;
  mkdir_makes = λ p m s. made_makes (s.paths p) p s;
  mknod_makes = λ p m d s. made_makes (s.paths p) p s;
  create_makes = λ p m s. made_makes (s.paths p) p s;
  mkdir_keeps = λ p q m s. made_keeps (s.paths p) p q s;
  mknod_keeps = λ p q m d s. made_keeps (s.paths p) p q s;
  create_keeps = λ p q m s. made_keeps (s.paths p) p q s;
  copy_keeps = λ p q t s h. h;
  remove_removes = λ p s h. upd_self s.paths p false;
  remove_adds_none = λ p q s. upd_keeps s.paths p q false;
  remove_all_removes = λ p s h. without_self s.paths p;
  mkdir-mounted = λ p q m s. made-mounts (s.paths p) p q s;
  mknod-mounted = λ p q m d s. made-mounts (s.paths p) p q s;
  create-mounted = λ p q m s. made-mounts (s.paths p) p q s;
  copy-mounted = λ p q t s. refl;
  remove-mounted = λ p q s. refl;
  remove_all-mounted = λ p q s. refl;
  bind_mounts = λ src p s h. upd_self s.mounts p true;
  bind_mount_fails = λ src p q e s h. absurd (no_error e h);
  detach_ok = λ p s. detached_ok (s.mounts p) p s;
  detach_invalid = λ p s. detached_invalid (s.mounts p) p s refl;
  detach_mounts_none = λ p q s. detached_adds_none (s.mounts p) p q s;
}

-- A jail with a directory and a bind mount, where nothing is yet.
abbrev jail : Jail
jail =
    bind (codes "/pages") (codes "/srv/pages")
      (mk_dir (codes "/pages") 493 (create (codes "/tmp/jail") 493))

abbrev empty_disk : World disk
empty_disk = record { os = record { paths = λ p. false; mounts = λ p. false }; removals = [] }

jail-IsSafe : IsSafe disk jail empty_disk
unfolding bind mk_dir create into dict_put
jail-IsSafe = record { now = (refl, tt); before = tt }

removals-IsUnmounted_example :
    All (IsUnmounted disk jail) (disposals disk 2 jail (build disk jail empty_disk).1).removals
removals-IsUnmounted_example = removals-IsUnmounted disk 2 jail empty_disk jail-IsSafe

build-Outcome_example : Outcome disk jail empty_disk (build disk jail empty_disk)
build-Outcome_example = build-Outcome disk jail empty_disk

abbrev full_disk : SampleDisk
full_disk = record { paths = λ p. true; mounts = λ p. false }

abbrev command : Cmd
command = record { path = codes "/usr/bin/pages"; dir = []; chroot = []; env = [] }

abbrev no_certs : Environment
no_certs = record { ssl_cert_file = []; ssl_cert_dir = [] }

all_there : IsAvailable disk full_disk false (codes "/usr/bin/pages")
unfolding info
all_there = record {
  executable = is_file (info (codes "/usr/bin/pages")) refl;
  urandom = is_device (info (codes "/dev/urandom")) 9 refl refl;
  random = is_device (info (codes "/dev/random")) 9 refl refl;
  resolver = is_file (info (codes "/etc/resolv.conf")) refl;
  hosts = is_file (info (codes "/etc/hosts")) refl;
}

daemonize_jail_lem_example :
    (p : Jail × Cmd) × (daemonize_jail disk full_disk false
        (ok (codes "/srv"))
        (ok (codes "a1b2"))
        (codes "/srv/pages")
        (codes "/tmp")
        5
        no_certs
        command
      ≡ ok p)
    × IsReady disk full_disk false (root_of false (codes "/srv") (codes "/tmp") 5) p
daemonize_jail_lem_example =
    daemonize_jail_lem disk full_disk false (codes "/srv") (codes "a1b2") (codes "/srv/pages")
      (codes "/tmp") 5 no_certs command all_there refl refl
