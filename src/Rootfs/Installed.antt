-- ===== src/Rootfs/Installed.antt =====
-- What is in the root file system behind the loop over the executables.
use mathlib.Core.Path.{subst}
use autonomic.Common.{
  ℕ, String, ◌<>◌, true, some, List, [], ◌∷◌, ◌++◌, ◌≡◌, ◌⊎◌, refl, inl, inr, string_eq,
  contains_iff, All, In, Option-cases,
}
use autonomic.Common.Text.{codes}
use autonomic.Common.Places.{In-append_left, In-append_right, In-select-map}
use autonomic.Rootfs.Libraries.{Names, Names-library_paths}
use autonomic.Rootfs.{
  library_paths, below_root, Placed, file, link, Tools, dependencies, bin_names, bin_link, install,
  install_all,
}

-- An executable is there, with a copy of each library that ldd names and the host has, at the
-- same path below the root, and with its link in bin/ if it is to have one.
pub record IsInstalled (host : Tools) (placed : List Placed) (name : String) : Type 0 where
  pub source : String
  pub found : host.which name ≡ some source
  pub executable : In (file (codes ("usr/bin/" <> name)) (codes source)) placed
  pub libraries :
      (library : List ℕ)
      → Names library (host.ldd source)
      → host.has_path library ≡ true
      → In (file (below_root library) library) placed
  pub linked :
      In name bin_names → In (link (codes ("bin/" <> name)) (codes ("/usr/bin/" <> name))) placed

In-bin_link :
    (name : String)
    → In name bin_names
    → In (link (codes ("bin/" <> name)) (codes ("/usr/bin/" <> name))) (bin_link name)
unfolding bin_link
In-bin_link name m = rw ((contains_iff bin_names name).1 m) (inl refl)

install-IsInstalled :
    (host : Tools) (name source : String)
    → host.which name ≡ some source
    → IsInstalled host (install host name source) name
unfolding install dependencies
install-IsInstalled host name source found = record {
  source = source;
  found = found;
  executable = inl refl;
  libraries = λ library m there.
      In-append_left _ (file (codes ("usr/bin/" <> name)) (codes source) ∷ dependencies host source)
        (bin_link name)
        (inr (
          In-select-map (λ path. file (below_root path) path) host.has_path
            (library_paths (host.ldd source)) library
            (Names-library_paths library (host.ldd source) m) there));
  linked = λ m.
      In-append_right _
        (file (codes ("usr/bin/" <> name)) (codes source) ∷ dependencies host source)
        (bin_link name) (In-bin_link name m);
}

-- What is placed in front or behind does not matter.
IsInstalled-append :
    (host : Tools) (xs ys : List Placed) (name : String)
    → IsInstalled host xs name ⊎ IsInstalled host ys name
    → IsInstalled host (xs ++ ys) name
IsInstalled-append host xs ys name (inl i) = record {
  source = i.source;
  found = i.found;
  executable = In-append_left _ xs ys i.executable;
  libraries = λ library m there. In-append_left _ xs ys (i.libraries library m there);
  linked = λ m. In-append_left _ xs ys (i.linked m);
}
IsInstalled-append host xs ys name (inr i) = record {
  source = i.source;
  found = i.found;
  executable = In-append_right _ xs ys i.executable;
  libraries = λ library m there. In-append_right _ xs ys (i.libraries library m there);
  linked = λ m. In-append_right _ xs ys (i.linked m);
}

All-install :
    (host : Tools) (xs ys : List Placed) (names : List String)
    → All (IsInstalled host ys) names
    → All (IsInstalled host (xs ++ ys)) names
All-install host xs ys [] installed = tt
All-install host xs ys (name ∷ names) (i, is) =
    (IsInstalled-append host xs ys name (inr i), All-install host xs ys names is)

-- Where the loop over the executables comes to its end, every one of them was found on the host
-- and is installed: with a copy of each path that ldd's output names for it and the host has, at the same
-- path below the root, and with a link in bin/ if it is one of those that have one.
pub install_all-IsInstalled :
    (host : Tools) (names : List String) (placed : List Placed)
    → install_all host names ≡ some placed
    → All (IsInstalled host placed) names
unfolding install_all
install_all-IsInstalled host [] placed h = tt
install_all-IsInstalled host (name ∷ names) placed h = elim (Option-cases (host.which name)) [
  | inl missing ↦ cc (rw (missing, install_all) at h)
  | inr (source, found) ↦ elim (Option-cases (install_all host names)) [
    | inl stopped ↦ cc (rw (found, install_all, stopped) at h)
    | inr (rest, later) ↦
        let mine = install host name source in
        let same : mine ++ rest ≡ placed = cc (rw (found, install_all, later) at h) in
        subst (λ p. All (IsInstalled host p) (name ∷ names)) same
          (
            IsInstalled-append host mine rest name
                (inl (install-IsInstalled host name source found)),
            All-install host mine rest names (install_all-IsInstalled host names rest later),
          )
  ]
]
