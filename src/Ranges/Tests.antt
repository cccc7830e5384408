-- ===== src/Ranges/Tests.antt =====
-- Readers over a short file, behind a server that sends every range that it is asked for.
use gitlab_pages_mirror.Common.{
  ℕ, suc, ◌-◌, ◌<◌, ◌^◌, Text, codes, ◌≡◌, refl, ap, ◌∙◌, some, none, [], ◌∷◌, take, drop, arith,
}
use gitlab_pages_mirror.Common.Int.{ℤ, pos, pos_part, IsInt64}
use gitlab_pages_mirror.Ranges.Resources.{
  Resource, RangeRequest, RangeResponse, HttpClient, range_request,
}
use gitlab_pages_mirror.Ranges.Readers.{
  Reader, new_reader, read, seek, seek_start, ensure_response, ensure_from, set_response, read_body,
  prepare_request, no_error,
}
use gitlab_pages_mirror.Ranges.Bounds.{IsInRange}
use gitlab_pages_mirror.Ranges.Reached.{Reached, opened, used, reads, seeks, Reached-IsInRange}
use gitlab_pages_mirror.Ranges.Sections.{IsHonest}
use gitlab_pages_mirror.Ranges.Ranged.{
  new_ranged_reader, with_cached_reader, read_parts, with_cached_reader-slices,
}

abbrev pub file : Text
file = codes "<h1>Hello</h1>"

abbrev pub served : RangeRequest → RangeResponse
served q = record {
  status = 206;
  etag = [];
  last_modified = [];
  content_length = pos 0;
  content_range = [];
  body = take (suc (pos_part q.last) - pos_part q.first) (drop (pos_part q.first) file);
}

abbrev pub server : HttpClient
server q = some (served q)

pub server-IsHonest : IsHonest file server
server-IsHonest = record {
  answer = λ q a b f l h k. (
    served q,
    refl,
    refl,
    ap (λ (z : ℤ). take (suc (pos_part q.last) - pos_part z) (drop (pos_part z) file)) f
        ∙ ap (λ (z : ℤ). take (suc (pos_part z) - a) (drop a file)) l,
  );
}

abbrev pub remote : Resource
remote = record { etag = []; last_modified = []; size = pos 14; url = codes "/file"; error = none }

int64 : (n : ℕ) → n < 2 ^ 63 → IsInt64 (pos n)
int64 n h = record { lower = omega arith; upper = h }

-- A new reader after a read of five bytes and a seek back to the first of them.
abbrev after_read : Reader
after_read = (read server 4 5 remote (new_reader (pos 4) (pos 10))).1.2

abbrev sought_back : Reader
sought_back = (seek (pos 0) seek_start after_read).0

sought_back-Reached : Reached sought_back
sought_back-Reached =
    used
      (used (opened (int64 4 (omega arith)) (int64 10 (omega arith)))
        (reads server 4 5 remote (int64 5 (omega arith)) refl))
      (seeks (pos 0) seek_start (int64 0 (omega arith)) refl)

Reached-IsInRange_example : IsInRange remote after_read (range_request remote (pos 9) (pos 13))
unfolding prepare_request read new_reader ensure_response ensure_from set_response read_body
Reached-IsInRange_example =
    Reached-IsInRange remote after_read (range_request remote (pos 9) (pos 13))
      (used (opened (int64 4 (omega arith)) (int64 10 (omega arith)))
        (reads server 4 5 remote (int64 5 (omega arith)) refl))
      refl

with_cached_reader-slices_example :
    (with_cached_reader
        (read_parts server (λ i n. n) ((5, 9) ∷ (4, 0) ∷ []))
        (new_ranged_reader remote)
      ≡ some (new_ranged_reader remote, (codes "</h1>", no_error) ∷ (codes "<h1>", no_error) ∷ []))
    × (read_parts server (λ i n. n) ((5, 9) ∷ (4, 0) ∷ []) (new_ranged_reader remote)
        ≡ some
            (new_ranged_reader remote, (codes "</h1>", no_error) ∷ (codes "<h1>", no_error) ∷ []))
with_cached_reader-slices_example =
    with_cached_reader-slices file server server-IsHonest remote refl (omega arith) (λ i n. n)
      ((5, 9) ∷ (4, 0) ∷ []) (omega arith, (omega arith, tt))
