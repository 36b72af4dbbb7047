-- ===== src/Daemon/Pid.antt =====
-- WritePID and RemovePID of internal/daemon/stop.go.
use Prim.Native.Char.{Char, code}
use Prim.Native.String.append
use tasch.Base.{
  ◌≡◌, refl, ap, ◌∙◌, ◌⊎◌, inl, inr, String, Bool, true, false, Bool-cases, Option, none, some,
  Option-cases, Map, lookup, insert, delete, lookup-insert, lookup-delete, eq_iff, concat, arith,
  ◌==◌, if◌then◌else◌,
}
use tasch.Config.{Host, Write, written, torn, torn_file, pid_path, back_slashes, closed, in_home}

-- `path[:strings.LastIndex(path, "/")]`; without a slash the index is -1 and the slice panics.
unfoldable pub dir_of : String → Option String
dir_of String.[] = none
dir_of (String.◌∷◌ c s) = elim (dir_of s) [
  | some dir ↦ some (String.◌∷◌ c dir)
  | none ↦ if code c == 47 then some "" else none
]

pub data Wrote : Type 0 where
  panics : Wrote
  ends : Map String → Option String → Wrote

-- With the process' number as text and the answer of os.WriteFile, which an error may leave torn.
unfoldable pub write_pid : Host → Map String → String → Write → Wrote
write_pid h files pid write = elim (dir_of (pid_path h)) [
  | none ↦ panics
  | some dir ↦ elim write [
    | written ↦ ends (insert (pid_path h) pid files) none
    | torn e left ↦ ends (torn_file (pid_path h) left files) (some e)
  ]
]

-- With the answer of os.Remove, whether it has removed the file; its error is not read.
unfoldable pub remove_pid : Host → Map String → Bool → Map String
remove_pid h files true = delete (pid_path h) files
remove_pid h files false = files

dir_of-append :
    (s t dir : String) → dir_of t ≡ some dir → (d : String) × (dir_of (concat s t) ≡ some d)
unfolding dir_of
dir_of-append String.[] t dir e = (dir, ap dir_of (append.nil t) ∙ e)
dir_of-append (String.◌∷◌ c s) t dir e =
    let (d, found) = dir_of-append s t dir e in
    (String.◌∷◌ c d, ap dir_of (append.cons c s t) ∙ rw (dir_of, found) refl)

in_home-dir : (home : String) → (d : String) × (dir_of (in_home false home "tasch.pid") ≡ some d)
unfolding in_home dir_of
in_home-dir home = dir_of-append (closed false home) ".tasch/tasch.pid" ".tasch" refl

slash_code : (c : Char) → (code (if code c == 47 then "\\" else c) == 47) ≡ false
slash_code c = elim (Bool-cases (code c == 47)) [
  | inl slash ↦ rw slash refl
  | inr other ↦ rw other other
]

dir_of-back_slashes : (s : String) → dir_of (back_slashes s) ≡ none
unfolding dir_of back_slashes
dir_of-back_slashes String.[] = refl
dir_of-back_slashes (String.◌∷◌ c s) = rw (dir_of-back_slashes s) (rw (slash_code c) refl)

in_lib-dir : dir_of "/var/lib/tasch/tasch.pid" ≡ some "/var/lib/tasch"
unfolding dir_of
in_lib-dir = refl

removed : (h : Host) (files : Map String) → lookup (pid_path h) (remove_pid h files true) ≡ none
unfolding remove_pid
removed h files =
    ground (arith, lookup-delete (pid_path h) (pid_path h) files, eq_iff (pid_path h) (pid_path h))

-- Whether the path of the pid file names a directory with a slash: in /var/lib/tasch, or in a home
-- directory, which has backslashes on Windows.
unfoldable pub HasDir : Host → Type 0
HasDir h = (h.var_lib_dir ≡ true) ⊎ ((h.windows ≡ false) × ((home : String) × (h.home ≡ some home)))

abbrev pub HasNoDir : Host → Type 0
HasNoDir h = (h.var_lib_dir ≡ false) × ((h.windows ≡ true) ⊎ (h.home ≡ none))

flat_path : (h : Host) → HasNoDir h → dir_of (pid_path h) ≡ none
unfolding pid_path dir_of in_home
flat_path h (no_lib, inr homeless) = rw (no_lib, homeless) refl
flat_path h (no_lib, inl backward) = elim (Option-cases h.home) [
  | inl homeless ↦ rw (no_lib, homeless) refl
  | inr (home, found) ↦
      rw (no_lib, found, backward)
        (dir_of-back_slashes (concat (closed true home) (concat ".tasch/" "tasch.pid")))
]

deep_path : (h : Host) → HasDir h → (d : String) × (dir_of (pid_path h) ≡ some d)
unfolding HasDir pid_path
deep_path h (inl lib) = ("/var/lib/tasch", rw lib in_lib-dir)
deep_path h (inr (slashes, (home, found))) = elim (Bool-cases h.var_lib_dir) [
  | inl lib ↦ ("/var/lib/tasch", rw lib in_lib-dir)
  | inr no_lib ↦ let (d, e) = in_home-dir home in (d, rw (no_lib, found, slashes) e)
]

host_cases : (h : Host) → HasNoDir h ⊎ HasDir h
unfolding HasDir
host_cases h = elim (Bool-cases h.var_lib_dir) [
  | inl lib ↦ inr (inl lib)
  | inr no_lib ↦ elim (Option-cases h.home) [
    | inl homeless ↦ inl (no_lib, inr homeless)
    | inr home ↦ elim (Bool-cases h.windows) [
      | inl backward ↦ inl (no_lib, inl backward)
      | inr slashes ↦ inr (inr (slashes, home))
    ]
  ]
]

-- WritePID panics where there is no /var/lib/tasch, and no home directory or a Windows, whatever the
-- files are. In every other case it reports the error of the write, or the file holds the process'
-- number; either way RemovePID then leaves no pid file, or every file where its removal fails.
pub write_pid_cases :
    (h : Host) (files : Map String) (pid : String) (write : Write)
    → (HasNoDir h × (write_pid h files pid write ≡ panics))
      ⊎ (HasDir h
          × (files' : Map String) × (err : Option String) × (write_pid h files pid write
              ≡ ends files' err)
          × (((e : String) × (left : Option String) × (write ≡ torn e left) × (err ≡ some e))
              ⊎ ((write ≡ written) × (err ≡ none) × (lookup (pid_path h) files' ≡ some pid)))
          × (lookup (pid_path h) (remove_pid h files' true) ≡ none)
          × (remove_pid h files' false ≡ files'))
unfolding write_pid remove_pid
write_pid_cases h files pid (torn e left) = elim (host_cases h) [
  | inl flat ↦ inl (flat, rw (write_pid, flat_path h flat) refl)
  | inr deep ↦ inr (
    deep,
    torn_file (pid_path h) left files,
    some e,
    rw (write_pid, (deep_path h deep).1) refl,
    inl (e, left, refl, refl),
    removed h (torn_file (pid_path h) left files),
    refl,
  )
]
write_pid_cases h files pid written = elim (host_cases h) [
  | inl flat ↦ inl (flat, rw (write_pid, flat_path h flat) refl)
  | inr deep ↦ inr (
    deep,
    insert (pid_path h) pid files,
    none,
    rw (write_pid, (deep_path h deep).1) refl,
    inr (
      refl,
      refl,
      ground (
        arith,
        lookup-insert (pid_path h) (pid_path h) pid files,
        eq_iff (pid_path h) (pid_path h),
      ),
    ),
    removed h (insert (pid_path h) pid files),
    refl,
  )
]
