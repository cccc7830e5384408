-- ===== src/Source/Disk/Tests.antt =====
-- The map of internal/source/disk on small inputs.
use gitlab_pages_mirror.Source.Disk.Watching.{Watcher, contents, new_watcher, watch, watch_once}
use gitlab_pages_mirror.Common.{
  ℕ, codes, ◌≡◌, ◌≢◌, refl, none, some, List, [], ◌∷◌, true, false, dict_get, to_lower,
  to_lower_byte, arith,
}
use gitlab_pages_mirror.Source.Disk.Groups.{ProjectConfig, DomainConfig}
use gitlab_pages_mirror.Source.Disk.Maps.{Map}
use gitlab_pages_mirror.Source.Disk.Scanning.{JobResult, read_results}
use gitlab_pages_mirror.Source.Disk.Keeping.{IsSound, read_results-IsSound}

abbrev public_config : ProjectConfig
public_config = record {
  namespace_project = false;
  https_only = false;
  access_control = false;
  id = 7;
}

abbrev custom : DomainConfig
custom = record {
  domain = codes "Example.com";
  certificate = [];
  key = [];
  https_only = true;
  id = 3;
  access_control = false;
}

abbrev below_root : DomainConfig
below_root = record {
  domain = codes "other.io";
  certificate = [];
  key = [];
  https_only = true;
  id = 3;
  access_control = false;
}

abbrev results : List JobResult
results =
    record { group = codes "g"; project = codes "a/b"; config = none }
    ∷ record {
      group = codes "g";
      project = codes "c";
      config = some (record {
        domains = custom ∷ below_root ∷ [];
        https_only = false;
        id = 3;
        access_control = true;
      });
    }
    ∷ []

empty-IsSound : IsSound (codes "io") []
unfolding dict_get
empty-IsSound = record { named = λ k d h. ground arith; grouped = λ k d h s. ground arith }

read_results-IsSound_example :
    (dm : Map) × (read_results (codes "io") results [] ≡ some dm) × IsSound (codes "io") dm
read_results-IsSound_example =
    read_results-IsSound (codes "io") results [] (unfold to_lower to_lower_byte in refl)
      empty-IsSound

abbrev nothing_yet : Watcher ℕ
unfolding new_watcher
nothing_yet = new_watcher

first_update : nothing_yet.last_update ≢ codes "1"
unfolding nothing_yet new_watcher
first_update = λ e. cc

-- The first scan fails, and the second would give the map 5.
watch_once_example :
    watch ((contents (codes "1"), none) ∷ (contents (codes "1"), some 5) ∷ []) nothing_yet
    ≡ record { last_update = codes "1"; domains = none }
unfolding nothing_yet
watch_once_example = watch_once (codes "1") none (some 5 ∷ []) nothing_yet first_update
