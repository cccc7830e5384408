-- ===== src/Zip/Reconfigure.antt =====
-- internal/vfs/zip/vfs.go: New and Reconfigure of the file system of archives.
use gitlab_pages_mirror.Common.{
  ℕ, Text, Option, none, some, List, [], if◌then◌else◌, true, false, Bool, is_some,
}
use gitlab_pages_mirror.Zip.Vfs.{ArchiveCache, World}

-- config.ZipServing
pub record ZipServing : Type 0 where
  pub expiration_interval : ℕ
  pub cleanup_interval : ℕ
  pub refresh_interval : ℕ
  pub open_timeout : ℕ

module _ (C : ArchiveCache) where
  -- `file_paths` are those of the transport for file addresses, once it is registered.
  pub record ZipVfs : Type 0 where
    pub settings : ZipServing
    pub file_paths : Option (List Text)
    pub world : World C

  abbrev pub reset_cache : ZipVfs → ZipVfs
  reset_cache v = record v {
    world = record v.world {
      cache = C.new_cache v.settings.expiration_interval v.settings.cleanup_interval;
    };
  }

  -- New, at a time.
  unfoldable pub new_zip_vfs : ℕ → ZipServing → ZipVfs
  new_zip_vfs now cfg = record {
    settings = cfg;
    file_paths = none;
    world = record {
      cache = C.new_cache cfg.expiration_interval cfg.cleanup_interval;
      heap = [];
      now = now;
    };
  }

  -- reconfigureTransport, on what NewFileSystemPath gives. RegisterProtocol panics for a protocol
  -- that is registered already.
  unfoldable pub reconfigure_transport : Option (List Text) → ZipVfs → Option (ZipVfs × Bool)
  reconfigure_transport none v = some (v, false)
  reconfigure_transport (some paths) v =
      if is_some v.file_paths then none else some (record v { file_paths = some paths }, true)

  abbrev pub reset_on : Option (ZipVfs × Bool) → Option (ZipVfs × Bool)
  reset_on none = none
  reset_on (some (v, b)) = some (if b then reset_cache v else v, b)

  -- Reconfigure: whether it succeeds, and none for a panic.
  unfoldable pub reconfigure : ZipServing → Option (List Text) → ZipVfs → Option (ZipVfs × Bool)
  unfolding reconfigure_transport
  reconfigure cfg paths v = reset_on (reconfigure_transport paths (record v { settings = cfg }))
