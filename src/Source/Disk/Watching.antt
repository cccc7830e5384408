-- ===== src/Source/Disk/Watching.antt =====
-- internal/source/disk/map.go: Watch, as one round of its loop after another. What reading the update
-- file and scanning the groups give in a round are parameters, and so is the type of the map.
use gitlab_pages_mirror.Common.{
  Text, codes, text_eq, text_eq_iff, Option, none, some, List, [], ◌∷◌, ◌≡◌, ◌≢◌, refl, ap, ◌∙◌,
  map, arith, if◌then◌else◌, if-cases,
}

-- ioutil.ReadFile of the update file.
pub data UpdateFile : Type 0 where
  contents : Text → UpdateFile
  missing unreadable : UpdateFile

-- What the variables of the loop hold, with the map that the updater was given last.
pub record Watcher (M : Type 0) : Type 0 where
  pub last_update : Text
  pub domains : Option M

module _ {M : Type 0} where
  -- Before the first round.
  unfoldable pub new_watcher : Watcher M
  new_watcher = record { last_update = codes "no-update"; domains = none }

  -- The map after a scan; none is a scan that failed.
  abbrev pub updated : Option M → Option M → Option M
  updated none domains = domains
  updated (some m) domains = some m

  abbrev scanned : Text → Option M → Watcher M → Watcher M
  scanned update scan s =
      if text_eq s.last_update update
      then s
      else record { last_update = update; domains = updated scan s.domains }

  -- One round of Watch.
  unfoldable pub watch_round : UpdateFile × Option M → Watcher M → Watcher M
  unfolding text_eq
  watch_round (unreadable, scan) s = s
  watch_round (missing, scan) s = scanned [] scan s
  watch_round (contents update, scan) s = scanned update scan s

  unfoldable pub watch : List (UpdateFile × Option M) → Watcher M → Watcher M
  unfolding watch_round
  watch [] s = s
  watch (r ∷ rounds) s = watch rounds (watch_round r s)

  round_same :
      (update : Text) (scan : Option M) (s : Watcher M)
      → s.last_update ≡ update
      → watch_round (contents update, scan) s ≡ s
  unfolding watch_round
  round_same update scan s h =
      if-cases (λ (t : Watcher M). t ≡ s) (text_eq s.last_update update) s _ (λ e. refl)
        (λ e. ground (arith, h, text_eq_iff s.last_update update))

  watch_same :
      (update : Text) (scans : List (Option M)) (s : Watcher M)
      → s.last_update ≡ update
      → watch (map (λ scan. (contents update, scan)) scans) s ≡ s
  unfolding watch
  watch_same update [] s h = refl
  watch_same update (scan ∷ scans) s h =
      ap (watch (map (λ x. (contents update, x)) scans)) (round_same update scan s h)
      ∙ watch_same update scans s h

  first_round :
      (update : Text) (scan : Option M) (s : Watcher M)
      → s.last_update ≢ update
      → watch_round (contents update, scan) s
        ≡ record { last_update = update; domains = updated scan s.domains }
  unfolding watch_round
  first_round update scan s h =
      if-cases
        (λ (t : Watcher M). t ≡ record { last_update = update; domains = updated scan s.domains })
        (text_eq s.last_update update) s _
        (λ e. absurd (h ((text_eq_iff s.last_update update).0 e))) (λ e. refl)

  -- A new content of the update file is scanned for once: while the file stays as it is, whatever
  -- later scans would give, the domains are those of the first scan, and the old ones when that one
  -- failed.
  pub watch_once :
      (update : Text) (scan : Option M) (scans : List (Option M)) (s : Watcher M)
      → s.last_update ≢ update
      → watch (map (λ x. (contents update, x)) (scan ∷ scans)) s
        ≡ record { last_update = update; domains = updated scan s.domains }
  unfolding watch
  watch_once update scan scans s h =
      ap (watch (map (λ x. (contents update, x)) scans)) (first_round update scan s h)
      ∙ watch_same update scans (record { last_update = update; domains = updated scan s.domains })
          refl
