-- ===== src/Httpfs/Inside.antt =====
-- internal/httpfs/http_fs.go: what is opened lies below an allowed path.
use gitlab_pages_mirror.Common.{
  Text, codes, Bool, true, false, List, [], ◌∷◌, ◌++◌, ◌≡◌, refl, ap, Result, ok, err, clean,
  is_rooted, has_prefix, arith, if◌then◌else◌, if-cases, Bool-cases, inl, inr,
}
use gitlab_pages_mirror.Common.DirectPaths.{IsDirect, clean-IsDirect, direct-rooted}
use gitlab_pages_mirror.Httpfs.{OpenError, permission, abs, is_allowed, open_path}

-- Below one of the allowed paths.
pub record IsBelow (allowed_paths : List Text) (path : Text) : Type 0 where
  pub before : List Text
  pub allowed : Text
  pub after : List Text
  pub listed : allowed_paths ≡ before ++ allowed ∷ after
  pub below : has_prefix path (allowed ++ codes "/") ≡ true

allowed-IsBelow :
    (path : Text) (allowed_paths : List Text)
    → is_allowed path allowed_paths ≡ true
    → IsBelow allowed_paths path
unfolding is_allowed
allowed-IsBelow path [] h = cc
allowed-IsBelow path (allowed ∷ rest) h =
    elim (Bool-cases (has_prefix path (allowed ++ codes "/"))) [
      | inl e ↦ record { before = []; allowed = allowed; after = rest; listed = refl; below = e }
      | inr e ↦
          let later = allowed-IsBelow path rest (ground (arith, e, h)) in
          record {
            before = allowed ∷ later.before;
            allowed = later.allowed;
            after = later.after;
            listed = ap (◌∷◌ allowed) later.listed;
            below = later.below;
          }
    ]

abs-IsDirect : (work path : Text) → is_rooted path ≡ true → IsDirect (abs work path)
unfolding abs
abs-IsDirect work path h =
    if-cases IsDirect (is_rooted path) (clean path) _ (λ e. clean-IsDirect path h) (λ e. cc (e, h))

guarded {ℓ κ} :
    {E : Type ℓ} {A : Type κ} (b : Bool) (r : Result E A) (e : E) (x : A)
    → (if b then r else err e) ≡ ok x
    → (b ≡ true) × (r ≡ ok x)
guarded true r e x h = (refl, h)
guarded false r e x h = cc

slash_rooted : (name : Text) → is_rooted (codes "/" ++ name) ≡ true
unfolding is_rooted has_prefix
slash_rooted name = refl

-- Whatever the name, what Open opens is an absolute path all of whose elements between slashes are
-- names, none of them empty, . or .., and it stands below one of the allowed paths.
pub open_path-IsBelow :
    (work : Text) (os_open : Text → Result OpenError Text) (allowed_paths : List Text)
    (name content : Text)
    → open_path work os_open allowed_paths name ≡ ok content
    → (path : Text) × IsDirect path × IsBelow allowed_paths path × (os_open path ≡ ok content)
unfolding open_path
open_path-IsBelow work os_open allowed_paths name content h =
    let root = clean (codes "/" ++ name) in
    let path = abs work root in
    let (allowed, opened) =
      guarded (is_allowed path allowed_paths) (os_open path) permission content h in
    (
      path,
      abs-IsDirect work root
          (direct-rooted root (clean-IsDirect (codes "/" ++ name) (slash_rooted name))),
      allowed-IsBelow path allowed_paths allowed,
      opened,
    )
