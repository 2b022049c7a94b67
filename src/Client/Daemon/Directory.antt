-- ===== src/Client/Daemon/Directory.antt =====
-- The directory of daemons: each file holds the entry of one process and is named for it.
use neutun.Base.{
  ℕ, ◌<◌, Text, Text-discrete, eqb, if◌then◌else◌, ◌≡◌, ◌≢◌, refl, sym, ap, ◌∙◌, true, false, some,
  codes, List, [], ◌∷◌, arith, All,
}
use neutun.Table
use neutun.Table.{Table}
use neutun.Str.Numbers.{show, parse_unsigned, parse_unsigned-show}
use neutun.Client.Saved.{
  DaemonEntry, SavedJson, ReadsBack, parse_file, json_file, is_json, read_all,
}
use neutun.Client.Saved.Sessions.{append_cancel}
use neutun.Client.Daemon.Twice.{is_json-json_file}

abbrev pub entry_file : DaemonEntry → Text
entry_file d = json_file (show d.pid)

-- A process id has 32 bits.
abbrev pub IsPid : ℕ → Type 0
IsPid pid = pid < 4294967296

-- Two processes have two files.
show_injective : (p q : ℕ) → IsPid p → IsPid q → show p ≡ show q → p ≡ q
show_injective p q h k e =
    let read_p = parse_unsigned-show 4294967296 p h (omega arith) in
    let read_q = parse_unsigned-show 4294967296 q k (omega arith) in
    ground (arith, read_p, read_q, ap (parse_unsigned 4294967296) e)

pub json_file_injective :
    (p q : ℕ) → IsPid p → IsPid q → json_file (show p) ≡ json_file (show q) → p ≡ q
json_file_injective p q h k e =
    show_injective p q h k (append_cancel (show p) (show q) (codes ".json") e)

-- The entries of other processes.
unfoldable pub without : ℕ → List DaemonEntry → List DaemonEntry
without pid [] = []
without pid (d ∷ ds) = let rest = without pid ds in if eqb d.pid pid then rest else d ∷ rest

without_same :
    (pid : ℕ) (d : DaemonEntry) (ds : List DaemonEntry)
    → d.pid ≡ pid
    → without pid (d ∷ ds) ≡ without pid ds
unfolding without
without_same pid d ds e = ground arith

without_other :
    (pid : ℕ) (d : DaemonEntry) (ds : List DaemonEntry)
    → d.pid ≢ pid
    → without pid (d ∷ ds) ≡ d ∷ without pid ds
unfolding without
without_other pid d ds e = ground arith

module _ (j : SavedJson) where
  -- What a file of the directory is.
  pub record IsEntry (name contents : Text) : Type 0 where
    pub entry : DaemonEntry
    pub named : name ≡ entry_file entry
    pub written : contents ≡ j.daemon_to_string entry
    pub reads_back : ReadsBack j.daemon_from_str j.daemon_to_string entry
    pub small : IsPid entry.pid

  abbrev pub IsDirectory : Table Text → Type 0
  IsDirectory dir = Table.All IsEntry dir

  pub read_all-IsEntry :
      (name contents : Text) (dir : Table Text) (e : IsEntry name contents)
      → read_all j.daemon_from_str ((name, contents) ∷ dir)
        ≡ e.entry ∷ read_all j.daemon_from_str dir
  unfolding read_all
  read_all-IsEntry name contents dir e =
      let json : is_json name ≡ true = ap is_json e.named ∙ is_json-json_file e.entry.pid in
      let parsed : parse_file j.daemon_from_str (some contents) ≡ some e.entry =
        ap (λ c. parse_file j.daemon_from_str (some c)) e.written ∙ e.reads_back in
      rw (json, parsed) refl

  -- The entry of a process goes with its file.
  pub read_all-remove :
      (pid : ℕ) (dir : Table Text)
      → IsPid pid
      → IsDirectory dir
      → read_all j.daemon_from_str (Table.remove (json_file (show pid)) dir)
        ≡ without pid (read_all j.daemon_from_str dir)
  unfolding Table.remove
  read_all-remove pid [] h d = unfold read_all without in refl
  read_all-remove pid ((name, contents) ∷ dir) h (e, d) =
      let file = json_file (show pid) in
      let read = read_all j.daemon_from_str in
      let whole = ap (without pid) (read_all-IsEntry name contents dir e) in
      let rest = read_all-remove pid dir h d in
      elim (Text-discrete name file)
        as (λ t.
          read (
            if elim t [ yes _ ↦ true | no _ ↦ false ]
            then Table.remove file dir
            else (name, contents) ∷ Table.remove file dir)
          ≡ without pid (read ((name, contents) ∷ dir))) [
            | yes p ↦
                let same = json_file_injective e.entry.pid pid e.small h (sym e.named ∙ p) in
                rest ∙ sym (whole ∙ without_same pid e.entry (read dir) same)
            | no n ↦
                let other : e.entry.pid ≢ pid = λ q. n (e.named ∙ ap (λ x. json_file (show x)) q) in
                read_all-IsEntry name contents (Table.remove file dir) e
                ∙ ap (◌∷◌ e.entry) rest
                ∙ sym (whole ∙ without_other pid e.entry (read dir) other)
          ]

  -- A directory without readable entries is empty.
  pub IsDirectory-empty :
      (dir : Table Text) → IsDirectory dir → read_all j.daemon_from_str dir ≡ [] → dir ≡ []
  IsDirectory-empty [] d e = refl
  IsDirectory-empty ((name, contents) ∷ dir) (f, d) e =
      absurd (ground (arith, read_all-IsEntry name contents dir f))

  pub read_all-IsPid :
      (dir : Table Text) → IsDirectory dir → All (λ d. IsPid d.pid) (read_all j.daemon_from_str dir)
  unfolding read_all
  read_all-IsPid [] d = tt
  read_all-IsPid ((name, contents) ∷ dir) (e, d) =
      rw (read_all-IsEntry name contents dir e) (e.small, read_all-IsPid dir d)
