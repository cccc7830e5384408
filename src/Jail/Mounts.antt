-- ===== src/Jail/Mounts.antt =====
-- internal/jail: nothing is removed while a bind mount of the jail stands, since removing goes
-- through it.
use gitlab_pages_mirror.Common.{
  ℕ, zero, suc, ◌≤◌, Text, false, ◌≡◌, refl, sym, ap, ◌∙◌, subst, Option, none, some, List, [], ◌∷◌,
  if-cases, ltb, length, All, All-map, arith, inl, inr, Option-cases,
}
use gitlab_pages_mirror.Jail.{Os, Jail, JailError, invalid_argument, multiple_mounts, cant_mount}
use gitlab_pages_mirror.Jail.Effects.{
  and_then, each, Leaves, and_then-Leaves, each-Leaves, each-All, and_then-none, and_then-some,
}
use gitlab_pages_mirror.Jail.Building.{
  World, call, wrapped, unmount_error, make_directory, handle_file, mount_one, mount, unmount_one,
  unmount, remove_jail, or_remove, build_parts, build, dispose,
}
use gitlab_pages_mirror.Jail.Unmounted.{
  IsUnmounted, IsSafe, make_directory-IsSafe, handle_file-IsSafe, remove_jail-IsSafe,
}

not_wrapped :
    (wrap : ℕ → JailError) (o : Option ℕ) (e : JailError) → o ≡ none → wrapped wrap o ≡ some e → ⊥
not_wrapped wrap none e h k = cc
not_wrapped wrap (some n) e h k = cc

only_invalid : (n : ℕ) → unmount_error (some n) ≡ none → n ≡ invalid_argument
only_invalid n h = ground arith

ltb-false : (a b : ℕ) → ltb a b ≡ false → b ≤ a
ltb-false a b h = ground arith

module _ (O : Os) where
  open O use {
    State, mounted, mkdir, mknod, create_file, copy_content, remove, remove_all, bind_mount, detach,
  }

  -- What the tests of the code leave of a bind mount that has failed or has been taken away.
  mount_one_fails :
      (m : Text × Text) (q : Text) (w : World O) (e : JailError)
      → (mount_one O m w).0 ≡ some e
      → mounted (mount_one O m w).1.os q ≡ mounted w.os q
  unfolding mount_one call
  mount_one_fails (dest, src) q w e h = elim (Option-cases (bind_mount src dest w.os).0) [
    | inl k ↦ absurd (not_wrapped cant_mount (bind_mount src dest w.os).0 e k h)
    | inr (n, k) ↦ O.bind_mount_fails src dest q n w.os k
  ]

  unmount_one-unmounted :
      (m : Text × Text) (w : World O)
      → (unmount_one O m w).0 ≡ none
      → mounted (unmount_one O m w).1.os m.0 ≡ false
  unfolding unmount_one
  unmount_one-unmounted (dest, src) w h = elim (Option-cases (detach dest w.os).0) [
    | inl k ↦ O.detach_ok dest w.os k
    | inr (n, k) ↦
        O.detach_invalid dest w.os (k ∙ ap some (only_invalid n (sym (ap unmount_error k) ∙ h)))
  ]

  unmount_one_keeps :
      (x y : Text × Text) (w : World O)
      → mounted w.os x.0 ≡ false
      → mounted (unmount_one O y w).1.os x.0 ≡ false
  unfolding unmount_one
  unmount_one_keeps (p, a) (q, b) w h = O.detach_mounts_none q p w.os h

  -- After a failure nothing stands; after a success the bind mount does.
  data Ends (j : Jail) : Option JailError × World O → Type 0 where
    fails : (e : JailError) (w : World O) → IsSafe O j w → Ends j (some e, w)
    done : (w : World O) → All (IsUnmounted O j) w.removals → Ends j (none, w)

  mount_one-removals : (m : Text × Text) (w : World O) → (mount_one O m w).1.removals ≡ w.removals
  unfolding mount_one call
  mount_one-removals (dest, src) w = refl

  mount_single-Ends :
      (j : Jail) (m : Text × Text) (w : World O) (o : Option JailError)
      → (mount_one O m w).0 ≡ o
      → IsSafe O j w
      → Ends j (and_then (mount_one O m w) (each (mount_one O) []))
  mount_single-Ends j m w none h i =
      subst (Ends j) (sym (and_then-none (mount_one O m w) (each (mount_one O) []) h)) (
        done (mount_one O m w).1
          (subst (All (IsUnmounted O j)) (sym (mount_one-removals m w)) i.before))
  mount_single-Ends j m w (some e) h i =
      subst (Ends j) (sym (and_then-some (mount_one O m w) (each (mount_one O) []) e h)) (
        fails e (mount_one O m w).1 (record {
          now = All-map j.bind_mounts (λ n k. mount_one_fails m n.0 w e h ∙ k) i.now;
          before = subst (All (IsUnmounted O j)) (sym (mount_one-removals m w)) i.before;
        }))

  mounts-Ends :
      (j : Jail) (ms : List (Text × Text)) (w : World O)
      → ltb 1 (length ms) ≡ false
      → IsSafe O j w
      → Ends j (each (mount_one O) ms w)
  mounts-Ends j [] w h i = done w i.before
  mounts-Ends j (m ∷ []) w h i = mount_single-Ends j m w (mount_one O m w).0 refl i
  mounts-Ends j (m ∷ n ∷ ms) w h i = absurd (omega (arith, ltb-false 1 (length (m ∷ n ∷ ms)) h))

  -- The steps before the mount, and the mount behind them.
  behind-Ends :
      (j : Jail) (x : Option JailError × World O) (f : World O → Option JailError × World O)
      → Leaves (IsSafe O j) x
      → ((w : World O) → IsSafe O j w → Ends j (f w))
      → Ends j (and_then x f)
  behind-Ends j (some e, w) f l h = fails e w l.state
  behind-Ends j (none, w) f l h = h w l.state

  build_parts-Ends :
      (j : Jail) (w : World O)
      → ltb 1 (length j.bind_mounts) ≡ false
      → IsSafe O j w
      → Ends j (build_parts O j w)
  unfolding build_parts mount
  build_parts-Ends j w h i =
      behind-Ends j
        (and_then (each (make_directory O) j.directories w) (each (handle_file O) j.files))
        (each (mount_one O) j.bind_mounts)
        (and_then-Leaves (each (make_directory O) j.directories w) (each (handle_file O) j.files)
          (each-Leaves (make_directory O) j.directories w i (make_directory-IsSafe O j))
          λ v k. each-Leaves (handle_file O) j.files v k (handle_file-IsSafe O j))
        λ v k. mounts-Ends j j.bind_mounts v h k

  or_remove-Ends : (j : Jail) (x : Option JailError × World O) → Ends j x → Ends j (or_remove O j x)
  or_remove-Ends j _ (fails e w i) = fails e _ (remove_jail-IsSafe O j w i).state
  or_remove-Ends j _ (done w b) = done w b

  build-Ends : (j : Jail) (w : World O) → IsSafe O j w → Ends j (build O j w)
  unfolding build
  build-Ends j w i =
      if-cases (Ends j) (ltb 1 (length j.bind_mounts)) _ _ (λ h. fails multiple_mounts w i)
        λ h. or_remove-Ends j _ (build_parts-Ends j w h i)

  Ends-removals :
      (j : Jail) (x : Option JailError × World O) → Ends j x → All (IsUnmounted O j) x.1.removals
  Ends-removals j _ (fails e w i) = i.before
  Ends-removals j _ (done w b) = b

  unmount-removals :
      (j : Jail) (w : World O)
      → All (IsUnmounted O j) w.removals
      → Leaves (λ (v : World O). All (IsUnmounted O j) v.removals) (unmount O j w)
  unfolding unmount unmount_one
  unmount-removals j w b =
      each-Leaves (unmount_one O) j.bind_mounts w b λ m v c. record { state = c }

  dispose-removals :
      (j : Jail) (w : World O) (o : Option JailError)
      → (unmount O j w).0 ≡ o
      → All (IsUnmounted O j) w.removals
      → All (IsUnmounted O j) (dispose O j w).1.removals
  unfolding dispose unmount
  dispose-removals j w none h b =
      let v = (unmount O j w).1 in
      let i : IsSafe O j v = record {
        now =
            each-All (λ m (u : World O). mounted u.os m.0 ≡ false) (unmount_one O) j.bind_mounts w
              unmount_one-unmounted unmount_one_keeps h;
        before = (unmount-removals j w b).state;
      } in
      rw (and_then-none (unmount O j w) (remove_jail O j) h)
        (remove_jail-IsSafe O j v i).state.before
  dispose-removals j w (some e) h b =
      rw (and_then-some (unmount O j w) (remove_jail O j) e h) (unmount-removals j w b).state

  -- Any number of calls of Dispose.
  abbrev pub disposals : ℕ → Jail → World O → World O
  disposals zero j w = w
  disposals (suc n) j w = disposals n j (dispose O j w).1

  disposals-removals :
      (n : ℕ) (j : Jail) (w : World O)
      → All (IsUnmounted O j) w.removals
      → All (IsUnmounted O j) (disposals n j w).removals
  disposals-removals zero j w b = b
  disposals-removals (suc n) j w b =
      disposals-removals n j (dispose O j w).1 (dispose-removals j w (unmount O j w).0 refl b)

  -- A jail of which no bind mount stands is built once and then disposed of any number of times: in
  -- no state in which something is removed does a bind mount of the jail stand, whichever calls of
  -- the system fail.
  pub removals-IsUnmounted :
      (n : ℕ) (j : Jail) (w : World O)
      → IsSafe O j w
      → All (IsUnmounted O j) (disposals n j (build O j w).1).removals
  removals-IsUnmounted n j w i =
      disposals-removals n j (build O j w).1 (Ends-removals j (build O j w) (build-Ends j w i))
