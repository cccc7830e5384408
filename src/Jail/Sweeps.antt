-- ===== src/Jail/Sweeps.antt =====
-- internal/jail/jail.go: what removeAll leaves behind.
use gitlab_pages_mirror.Common.{
  ℕ, Text, true, false, ◌≡◌, refl, sym, ap, ◌∙◌, subst, Option, none, some, List, [], ◌∷◌, ◌++◌,
  if◌then◌else◌, if-cases, All, All-map,
}
use gitlab_pages_mirror.Jail.{Os, Jail, JailError, PathAndMode, cant_delete}
use gitlab_pages_mirror.Jail.Effects.{and_then, and_then_done, each-Leaves, each-All}
use gitlab_pages_mirror.Jail.Building.{
  World, call, wrapped, removing, reverse, remove_path, remove_jail, remove_files,
  remove_directories,
}

All-last :
    {A : Type 0} (P : A → Type 0) (xs : List A) (x : A) → All P (xs ++ x ∷ []) → P x × All P xs
All-last P [] x h = (h.0, tt)
All-last P (y ∷ xs) x h = let (p, q) = All-last P xs x h.1 in (p, (h.0, q))

All-reverse : (P : PathAndMode → Type 0) (xs : List PathAndMode) → All P (reverse xs) → All P xs
All-reverse P [] h = tt
All-reverse P (x ∷ xs) h = let (p, q) = All-last P (reverse xs) x h in (p, All-reverse P xs q)

pub unwrapped : (wrap : ℕ → JailError) (o : Option ℕ) → wrapped wrap o ≡ none → o ≡ none
unwrapped wrap none h = refl
unwrapped wrap (some e) h = cc

module _ (O : Os) where
  open O use {
    State, exists, mounted, mkdir, mknod, create_file, copy_content, open_file, remove, remove_all,
    bind_mount,
  }

  abbrev Gone : Text → World O → Type 0
  Gone p w = exists w.os p ≡ false

  -- What removeAll is meant to take away.
  abbrev pub IsRemoved : Jail → World O → Type 0
  IsRemoved j w =
      if j.delete_root
      then Gone j.root w
      else All (λ f. Gone f.0 w) j.files × All (λ d. Gone d.path w) j.directories

  -- removeAll, whose error Build drops.
  pub data Swept (j : Jail) : Option JailError × World O → Type 0 where
    failing : (e : JailError) (w : World O) → Swept j (some e, w)
    swept : (w : World O) → IsRemoved j w → Swept j (none, w)

  remove_path-Gone :
      (p : Text) (w : World O) → (remove_path O p w).0 ≡ none → Gone p (remove_path O p w).1
  unfolding remove_path call
  remove_path-Gone p w h = O.remove_removes p w.os (unwrapped cant_delete (remove p w.os).0 h)

  remove_path_keeps : (p q : Text) (w : World O) → Gone q w → Gone q (remove_path O p w).1
  unfolding remove_path call
  remove_path_keeps p q w h = O.remove_adds_none p q w.os h

  directories_keep :
      (j : Jail) (p : Text) (w : World O) → Gone p w → Gone p (remove_directories O j w).1
  directories_keep j p w h =
      (each-Leaves {P = Gone p} (λ d. remove_path O d.path) (reverse j.directories) w h
        (λ d v k. record { state = remove_path_keeps d.path p v k })).state

  removed_parts :
      (j : Jail) (w v : World O)
      → (remove_files O j w).0 ≡ none
      → (remove_files O j w).1 ≡ v
      → (remove_directories O j v).0 ≡ none
      → All (λ f. Gone f.0 (remove_directories O j v).1) j.files
        × All (λ d. Gone d.path (remove_directories O j v).1) j.directories
  removed_parts j w v h e k = (
    All-map j.files (λ f g. directories_keep j f.0 v g)
        (subst (λ u. All (λ f. Gone f.0 u) j.files) e
          (each-All (λ f. Gone f.0) (λ f. remove_path O f.0) j.files w
            (λ f u. remove_path-Gone f.0 u) (λ f g u. remove_path_keeps g.0 f.0 u) h)),
    All-reverse (λ d. Gone d.path (remove_directories O j v).1) j.directories
        (each-All (λ d. Gone d.path) (λ d. remove_path O d.path) (reverse j.directories) v
          (λ d u. remove_path-Gone d.path u) (λ d g u. remove_path_keeps g.path d.path u) k),
  )

  swept-parts :
      (j : Jail) (w : World O) (x : Option JailError × World O)
      → j.delete_root ≡ false
      → and_then (remove_files O j w) (remove_directories O j) ≡ x
      → Swept j x
  swept-parts j w (some e, v) d h = failing e v
  swept-parts j w (none, v) d h =
      let (a, b, e) =
        and_then_done (remove_files O j w) (remove_directories O j)
          (ap (λ (y : Option JailError × World O). y.0) h) in
      let f : (remove_directories O j (remove_files O j w).1).1 ≡ v =
        sym e ∙ ap (λ (y : Option JailError × World O). y.1) h in
      swept v (
        rw d (
          subst (λ u. All (λ f. Gone f.0 u) j.files × All (λ d. Gone d.path u) j.directories) f
            (removed_parts j w (remove_files O j w).1 a refl b)))

  swept-root :
      (j : Jail) (w : World O) (o : Option ℕ)
      → j.delete_root ≡ true
      → (remove_all j.root w.os).0 ≡ o
      → Swept j (call O cant_delete (remove_all j.root) (removing O w))
  unfolding call
  swept-root j w none d h = rw h (swept _ (rw d (O.remove_all_removes j.root w.os h)))
  swept-root j w (some e) d h = rw h (failing (cant_delete e) _)

  pub remove_jail-Swept : (j : Jail) (w : World O) → Swept j (remove_jail O j w)
  unfolding remove_jail
  remove_jail-Swept j w =
      if-cases (Swept j) j.delete_root _ _ (λ d. swept-root j w (remove_all j.root w.os).0 d refl)
        λ d. swept-parts j w _ d refl
