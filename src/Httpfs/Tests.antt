-- ===== src/Httpfs/Tests.antt =====
-- A file below the directory of the artifacts.
use gitlab_pages_mirror.Common.{Text, codes, [], ◌∷◌, ◌≡◌, refl, Result, ok, err}
use gitlab_pages_mirror.Httpfs.{OpenError, permission, open_path}
use gitlab_pages_mirror.Common.DirectPaths.{IsDirect}
use gitlab_pages_mirror.Httpfs.Inside.{IsBelow, open_path-IsBelow}

abbrev contents_of : Text → Result OpenError Text
contents_of path = ok path

opened :
    (open_path (codes "/home") contents_of (codes "/srv" ∷ []) (codes "/srv/a/../b.zip")
      ≡ ok (codes "/srv/b.zip"))
    × (open_path (codes "/home") contents_of (codes "/srv" ∷ []) (codes "/srv/../etc/passwd")
        ≡ err permission)
unfolding open_path
opened = (refl, refl)

open_path-IsBelow_example :
    (path : Text) × IsDirect path
    × IsBelow (codes "/srv" ∷ []) path
    × (contents_of path ≡ ok (codes "/srv/b.zip"))
open_path-IsBelow_example =
    open_path-IsBelow (codes "/home") contents_of (codes "/srv" ∷ []) (codes "/srv/a/../b.zip")
      (codes "/srv/b.zip") opened.0
