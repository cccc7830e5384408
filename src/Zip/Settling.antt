-- ===== src/Zip/Settling.antt =====
-- internal/vfs/zip/archive.go: an archive is read once, and what was read stays.
use gitlab_pages_mirror.Common.{
  ℕ, Text, Bool, true, false, Bool-cases, inl, inr, Option, none, some, List, [], ◌∷◌, ◌++◌, Result,
  ok, err, ◌≡◌, refl, sym, ap, ◌∙◌, subst, if-cases,
}
use gitlab_pages_mirror.Common.Int.{ℤ}
use gitlab_pages_mirror.Ranges.Resources.{RangeError, HttpClient, Resource, set_url, new_resource}
use gitlab_pages_mirror.Zip.Entries.{Header, ZipLibrary}
use gitlab_pages_mirror.Zip.Opening.{
  OpenError, ZipArchive, new_archive, opening, status_of, resource_error, open_status, on_resource,
  start, open_archive, read_tables, read_resource, read_archive, Step, request, finish, break,
  Steps, none_yet, and_then,
}

-- The goroutine of an archive runs from the first request until the archive is done.
pub record IsWellFormed (a : ZipArchive) : Type 0 where
  pub waits : a.started ≡ false → (a.done ≡ false) × (a.reading ≡ [])
  pub runs : a.started ≡ true → a.done ≡ false → (url : Text) × (a.reading ≡ url ∷ [])
  pub rests : a.done ≡ true → a.reading ≡ []

pub new_archive-IsWellFormed : (n : ℕ) → IsWellFormed (new_archive n)
unfolding new_archive
new_archive-IsWellFormed n = record { waits = λ h. (refl, refl); runs = λ h k. cc; rests = λ h. cc }

none_runs : (before after : List Text) (url : Text) → before ++ url ∷ after ≡ [] → ⊥
none_runs [] after url h = cc
none_runs (x ∷ before) after url h = cc

one_runs :
    (before after : List Text) (url other : Text)
    → before ++ url ∷ after ≡ other ∷ []
    → before ++ after ≡ []
one_runs [] after url other h = cc
one_runs (x ∷ before) after url other h = absurd (none_runs before after url (cc h))

-- While one goroutine runs, there is no second one.
only_reader :
    (a : ZipArchive) (before after : List Text) (url : Text)
    → IsWellFormed a
    → a.reading ≡ before ++ url ∷ after
    → before ++ after ≡ []
only_reader a before after url wf h = elim (Bool-cases a.started) [
  | inr s ↦ absurd (none_runs before after url (sym h ∙ (wf.waits s).1))
  | inl s ↦ elim (Bool-cases a.done) [
    | inl d ↦ absurd (none_runs before after url (sym h ∙ wf.rests d))
    | inr d ↦ let (other, e) = wf.runs s d in one_runs before after url other (sym h ∙ e)
  ]
]

-- What a later state of an archive that is done has kept.
pub record IsKept (a b : ZipArchive) : Type 0 where
  pub done : b.done ≡ true
  pub error : b.error ≡ a.error
  pub tables : b.tables ≡ a.tables
  pub reading : b.reading ≡ []
  pub number : b.number ≡ a.number

abbrev with_url : Text → ZipArchive → ZipArchive
with_url url a = record a { resource = on_resource (set_url url) a.resource }

settled_start :
    (d : Bool) (e : Option OpenError) (r : Option (Option RangeError)) (url : Text) (a : ZipArchive)
    → d ≡ true
    → start (status_of d e r) url a ≡ a
settled_start false e r url a h = cc
settled_start true (some e) r url a h = refl
settled_start true none (some (some e)) url a h = refl
settled_start true none (some none) url a h = refl
settled_start true none none url a h = refl

request_done :
    (url : Text) (a : ZipArchive) → a.done ≡ true → (open_archive url a).0 ≡ with_url url a
unfolding open_archive open_status
request_done url a h =
    settled_start a.done a.error (resource_error (on_resource (set_url url) a.resource)) url
      (with_url url a) h

opening_status :
    (d : Bool) (e : Option OpenError) (r : Option (Option RangeError))
    → d ≡ false
    → status_of d e r ≡ opening
opening_status true e r h = cc
opening_status false e r h = refl

request_opening :
    (url : Text) (a : ZipArchive)
    → a.done ≡ false
    → (open_archive url a).0 ≡ start opening url (with_url url a)
unfolding open_archive open_status
request_opening url a h =
    ap (λ s. start s url (with_url url a))
      (opening_status a.done a.error (resource_error (on_resource (set_url url) a.resource)) h)

started_IsWellFormed :
    (url : Text) (a : ZipArchive)
    → IsWellFormed a
    → a.done ≡ false
    → IsWellFormed (start opening url (with_url url a))
started_IsWellFormed url a wf d =
    if-cases IsWellFormed a.started (with_url url a)
      (record (with_url url a) { started = true; reading = url ∷ a.reading })
      (λ s. record { waits = wf.waits; runs = wf.runs; rests = wf.rests })
      (λ s. record {
        waits = λ h. cc;
        runs = λ h k. (url, ap (λ l. url ∷ l) (wf.waits s).1);
        rests = λ h. cc (h, d);
      })

module _ (lib : ZipLibrary) (parse_int : Text → Option ℤ) (client : HttpClient)
    (list : Resource → Resource × Result OpenError (List Header)) where
  -- What the end of the goroutine sets.
  record IsFinished (a b : ZipArchive) : Type 0 where
    started : b.started ≡ a.started
    done : b.done ≡ true
    reading : b.reading ≡ a.reading

  tables-IsFinished :
      (t : Resource × Result OpenError (List Header)) (a : ZipArchive)
      → IsFinished a (read_tables lib parse_int client list t a)
  unfolding read_tables
  tables-IsFinished (r, err e) a = record { started = refl; done = refl; reading = refl }
  tables-IsFinished (r, ok es) a = record { started = refl; done = refl; reading = refl }

  resource-IsFinished :
      (t : Result RangeError Resource) (a : ZipArchive)
      → IsFinished a (read_resource lib parse_int client list t a)
  unfolding read_resource
  resource-IsFinished (err e) a = record { started = refl; done = refl; reading = refl }
  resource-IsFinished (ok r) a = tables-IsFinished (list r) a

  step-IsWellFormed :
      (a b : ZipArchive) → IsWellFormed a → Step lib parse_int client list a b → IsWellFormed b
  unfolding read_archive
  step-IsWellFormed a _ wf (request url _) = elim (Bool-cases a.done) [
    | inl d ↦
        subst IsWellFormed (sym (request_done url a d))
          (record { waits = wf.waits; runs = wf.runs; rests = wf.rests })
    | inr d ↦ subst IsWellFormed (sym (request_opening url a d)) (started_IsWellFormed url a wf d)
  ]
  step-IsWellFormed a _ wf (finish url before after _ h) =
      let f =
        resource-IsFinished (new_resource parse_int client url)
          (record a { reading = before ++ after }) in
      record {
        waits = λ s. absurd (none_runs before after url (sym h ∙ (wf.waits (sym f.started ∙ s)).1));
        runs = λ s d. cc (d, f.done);
        rests = λ d. f.reading ∙ only_reader a before after url wf h;
      }
  step-IsWellFormed a _ wf (break e r _ h d) = record {
    waits = wf.waits;
    runs = wf.runs;
    rests = wf.rests;
  }

  step-IsKept :
      (a b : ZipArchive)
      → IsWellFormed a
      → a.done ≡ true
      → Step lib parse_int client list a b
      → IsKept a b
  step-IsKept a _ wf d (request url _) =
      subst (IsKept a) (sym (request_done url a d))
        (record { done = d; error = refl; tables = refl; reading = wf.rests d; number = refl })
  step-IsKept a _ wf d (finish url before after _ h) =
      absurd (none_runs before after url (sym h ∙ wf.rests d))
  step-IsKept a _ wf d (break e r _ h k) = record {
    done = d;
    error = refl;
    tables = refl;
    reading = wf.rests d;
    number = refl;
  }

  pub Steps-IsWellFormed :
      (a b : ZipArchive) → IsWellFormed a → Steps lib parse_int client list a b → IsWellFormed b
  Steps-IsWellFormed a _ wf (none_yet _) = wf
  Steps-IsWellFormed a c wf (and_then _ b _ s t) =
      step-IsWellFormed b c (Steps-IsWellFormed a b wf s) t

  -- An archive that is done stays as it is.
  Steps-IsKept :
      (a b : ZipArchive)
      → IsWellFormed a
      → a.done ≡ true
      → Steps lib parse_int client list a b
      → IsKept a b
  Steps-IsKept a _ wf d (none_yet _) = record {
    done = d;
    error = refl;
    tables = refl;
    reading = wf.rests d;
    number = refl;
  }
  Steps-IsKept a c wf d (and_then _ b _ s t) =
      let k = Steps-IsKept a b wf d s in
      let j = step-IsKept b c (Steps-IsWellFormed a b wf s) k.done t in
      record {
        done = j.done;
        error = j.error ∙ k.error;
        tables = j.tables ∙ k.tables;
        reading = j.reading;
        number = j.number ∙ k.number;
      }

  -- However many requests open a new archive at the same time, and in whatever order they, its
  -- goroutines and failures of its resource come: once the archive is done, no goroutine reads it
  -- any more, and it stays done, with its error and its tables as they were.
  pub Steps-new-IsKept :
      (n : ℕ) (a b : ZipArchive)
      → Steps lib parse_int client list (new_archive n) a
      → a.done ≡ true
      → Steps lib parse_int client list a b
      → (a.reading ≡ []) × IsKept a b
  Steps-new-IsKept n a b r d s =
      let wf = Steps-IsWellFormed (new_archive n) a (new_archive-IsWellFormed n) r in
      (wf.rests d, Steps-IsKept a b wf d s)
