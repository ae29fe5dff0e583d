-- ===== src/Rootfs/Tests.antt =====
-- A host with two executables, and a small module.
use autonomic.Common.{ℕ, ◌<>◌, true, some, List, [], ◌∷◌, ◌++◌, ◌≡◌, ◌↔◌, refl, string_eq, All}
use autonomic.Common.Text.{codes}
use autonomic.Rootfs.{
  library_paths, below_root, dependencies, Placed, file, link, Tools, install_all, fixed_hostname,
  offline,
}
use autonomic.Rootfs.Offline.{Replaced, offline_iff}
use autonomic.Rootfs.Installed.{IsInstalled, install_all-IsInstalled}

abbrev sample_tools : Tools
sample_tools = record {
  which = λ name. some ("/bin/" <> name);
  ldd = λ path. codes "libc.so => /lib/libc.so (0x7f)\n/lib64/ld.so (0x7e)\nlinux-vdso.so (0x7d)";
  has_path = λ path. true;
}

abbrev sample_placed : List Placed
sample_placed =
    file (codes "usr/bin/sh") (codes "/bin/sh")
    ∷ file (codes "lib/libc.so") (codes "/lib/libc.so")
    ∷ file (codes "lib64/ld.so") (codes "/lib64/ld.so")
    ∷ link (codes "bin/sh") (codes "/usr/bin/sh")
    ∷ file (codes "usr/bin/git") (codes "/bin/git")
    ∷ file (codes "lib/libc.so") (codes "/lib/libc.so")
    ∷ file (codes "lib64/ld.so") (codes "/lib64/ld.so")
    ∷ []

installed : install_all sample_tools ("sh" ∷ "git" ∷ []) ≡ some sample_placed
unfolding install_all library_paths below_root dependencies
installed = refl

install_all-IsInstalled_example : All (IsInstalled sample_tools sample_placed) ("sh" ∷ "git" ∷ [])
install_all-IsInstalled_example =
    install_all-IsInstalled sample_tools ("sh" ∷ "git" ∷ []) sample_placed installed

abbrev sample_source : List ℕ
sample_source = codes "a.\nset_hostname() ->\n  ask().\nset_hostname({ok,Name}) -> b."

abbrev sample_offline : List ℕ
sample_offline = codes "a.\n" ++ (fixed_hostname ++ codes "\nset_hostname({ok,Name}) -> b.")

made_offline : offline sample_source ≡ some sample_offline
unfolding offline
made_offline = refl

offline_iff_example :
    (offline sample_source ≡ some sample_offline) ↔ Replaced sample_source sample_offline
offline_iff_example = offline_iff sample_source sample_offline
