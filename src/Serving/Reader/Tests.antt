-- ===== src/Serving/Reader/Tests.antt =====
-- internal/serving/disk on a small site: a page, a page that is compressed as well, and a link.
use gitlab_pages_mirror.Common.{
  Text, codes, text_eq, true, false, ◌≡◌, refl, none, some, [], ◌∷◌, ok, err, if◌then◌else◌,
}
use gitlab_pages_mirror.Vfs.{not_exist, Root, Vfs}
use gitlab_pages_mirror.Responses.{write, set_header}
use gitlab_pages_mirror.Serving.Handlers.{Handler}
use gitlab_pages_mirror.Serving.Reader.{Outside, disk_serve_file}
use gitlab_pages_mirror.Serving.Reader.Caching.{allows_caching, disk_serve_file-caching}

abbrev site_root : Root
unfolding text_eq
site_root = record {
  lstat = λ path.
      if text_eq path (codes "index.html")
      then ok (record { size = 2; is_dir = false; is_regular = true; mod_time = 0 })
      else err not_exist;
  open_file = λ path. if text_eq path (codes "index.html") then ok (codes "hi") else err not_exist;
  readlink = λ path. err not_exist;
}

abbrev outside : Outside
outside = record {
  eval_symlinks = λ root path. ok path;
  negotiate = λ r offers. codes "identity";
  type_by_extension = λ path. codes "text/html";
  detect = λ content. codes "text/plain";
  is_seekable = λ root path. false;
  expires = codes "later";
  redirects_enabled = true;
  parse_url = λ text. none;
  parse_rules = λ text. some [];
  url_string = λ scheme host path r. path;
  request_url = λ r. record { scheme = []; host = []; path = r.path; query = [] };
}

abbrev site : Vfs
site = record { root_at = λ path. ok site_root }

abbrev handler : Text → Handler
handler sub_path = record {
  request = record {
    method = codes "GET";
    host = codes "group.io";
    scheme = codes "https";
    path = sub_path;
    request_uri = sub_path;
    query = [];
    headers = [];
    tls = true;
  };
  lookup_path = record {
    serving_type = codes "file";
    prefix = codes "/";
    path = codes "group/a/public/";
    is_namespace_project = false;
    is_https_only = false;
    has_access_control = true;
    project_id = 4;
  };
  sub_path = sub_path;
}

disk_serve_file-caching_example :
    allows_caching (disk_serve_file outside site (handler (codes "index.html")) []).1
    ≡ allows_caching []
disk_serve_file-caching_example =
    disk_serve_file-caching outside site (handler (codes "index.html")) [] refl

page_is_sent : disk_serve_file outside site (handler (codes "index.html")) [] ≡ (
  true,
  write (codes "hi")
      ∷ set_header (codes "Content-Length") (codes "2")
      ∷ set_header (codes "Content-Type") (codes "text/html")
      ∷ [],
)
unfolding disk_serve_file
page_is_sent = refl
