-- ===== src/Local/Tests.antt =====
-- internal/vfs/local on one directory.
use gitlab_pages_mirror.Common.{
  Text, codes, false, text_eq, if◌then◌else◌, inl, inr, ◌++◌, ◌≡◌, refl, sym, ok, err,
}
use gitlab_pages_mirror.Vfs.{not_exist, failed}
use gitlab_pages_mirror.Local.Roots.{Os, validate_path, IsWithin, local_root, local_root-isolated}

abbrev empty_os : Os
empty_os = record {
  lstat = λ path. err not_exist;
  readlink = λ path. ok (codes "target");
  open_file = λ path. err not_exist;
  relative = λ path target. ok target;
}

-- One with a file outside the directory.
abbrev other_os : Os
other_os = record empty_os {
  lstat = λ path. if text_eq path (codes "/etc/passwd") then err (failed 9) else err not_exist;
}

outside : (p : Text) → IsWithin (codes "/site") p → text_eq p (codes "/etc/passwd") ≡ false
unfolding text_eq
outside p (d, inl e) = rw e refl
outside p (d, inr (rest, e)) = rw e refl

local_root-isolated_example :
    ((local_root empty_os (codes "/site")).lstat (codes "../etc/passwd")
      ≡ (local_root other_os (codes "/site")).lstat (codes "../etc/passwd"))
    × ((local_root empty_os (codes "/site")).readlink (codes "../etc/passwd")
        ≡ (local_root other_os (codes "/site")).readlink (codes "../etc/passwd"))
    × ((local_root empty_os (codes "/site")).open_file (codes "../etc/passwd")
        ≡ (local_root other_os (codes "/site")).open_file (codes "../etc/passwd"))
unfolding gitlab_pages_mirror.Common.is_rooted
local_root-isolated_example =
    local_root-isolated (codes "/site") empty_os other_os (codes "../etc/passwd") refl (record {
      lstat = λ p i. sym (rw (outside p i) refl);
      readlink = λ p i. refl;
      open_file = λ p i. refl;
      relative = λ p t. refl;
    })

path_examples :
    (validate_path (codes "/site") (codes "a/../b") ≡ ok (codes "/site/b", codes "b"))
    × (validate_path (codes "/site") (codes ".") ≡ ok (codes "/site", codes ""))
unfolding validate_path
path_examples = (refl, refl)
