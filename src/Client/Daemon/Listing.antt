-- ===== src/Client/Daemon/Listing.antt =====
-- What `neutun daemon ls` lists, and what `neutun daemon stop-all` leaves.
use neutun.Base.{
  ℕ, eqb, if◌then◌else◌, ◌≡◌, ◌≢◌, ◌⊎◌, refl, sym, ap, ◌∙◌, Bool, true, false, List, [], ◌∷◌, arith,
  Bool-cases, inl, inr, All, All-map,
}
use neutun.Table
use neutun.Table.{Table}
use neutun.Str.Numbers.{show}
use neutun.Client.Saved.{
  DaemonEntry, Files, SavedJson, json_file, read_all, remove_daemon_entry, list_daemon_entries,
  cleanup, cleanup_and_list_daemons,
}
use neutun.Client.Daemon.Directory.{IsPid, without, IsDirectory, read_all-remove, read_all-IsPid}

-- Some entry is that of the process.
abbrev pub HasPid : ℕ → List DaemonEntry → Type 0
HasPid pid [] = ⊥
HasPid pid (d ∷ ds) = (d.pid ≡ pid) ⊎ HasPid pid ds

pub has_own_pid : (ds : List DaemonEntry) → All (λ d. HasPid d.pid ds) ds
has_own_pid [] = tt
has_own_pid (d ∷ ds) = (
  inl refl,
  All-map (λ e. HasPid e.pid ds) (λ e. HasPid e.pid (d ∷ ds)) ds (λ e. inr) (has_own_pid ds),
)

pub without-All :
    (P : DaemonEntry → Type 0) (pid : ℕ) (ds : List DaemonEntry)
    → All P ds
    → All (λ d. P d × (d.pid ≢ pid)) (without pid ds)
unfolding without
without-All P pid [] h = tt
without-All P pid (d ∷ ds) (p, h) = elim (Bool-cases (eqb d.pid pid)) [
  | inl e ↦ rw e (without-All P pid ds h)
  | inr e ↦ rw e ((p, λ q. absurd (ground arith)), without-All P pid ds h)
]

module _ (alive : ℕ → Bool) where
  -- The entries of running processes.
  unfoldable pub live_entries : List DaemonEntry → List DaemonEntry
  live_entries [] = []
  live_entries (d ∷ ds) = let rest = live_entries ds in if alive d.pid then d ∷ rest else rest

  -- The entries that are left after those of the processes of `ds` that do not run are removed.
  outlived : List DaemonEntry → List DaemonEntry → List DaemonEntry
  outlived [] l = l
  outlived (d ∷ ds) l = outlived ds (if alive d.pid then l else without d.pid l)

  live_entries-without :
      (pid : ℕ) (l : List DaemonEntry)
      → alive pid ≡ false
      → live_entries (without pid l) ≡ live_entries l
  unfolding live_entries without
  live_entries-without pid [] h = refl
  live_entries-without pid (d ∷ ds) h = elim (Bool-cases (eqb d.pid pid)) [
    | inl e ↦
        let dead : alive d.pid ≡ false = ground arith in
        rw (e, dead) (live_entries-without pid ds h)
    | inr e ↦ rw e (ap (λ r. if alive d.pid then d ∷ r else r) (live_entries-without pid ds h))
  ]

  live_entries-outlived : (ds l : List DaemonEntry) → live_entries (outlived ds l) ≡ live_entries l
  unfolding outlived
  live_entries-outlived [] l = refl
  live_entries-outlived (d ∷ ds) l = elim (Bool-cases (alive d.pid)) [
    | inl e ↦ rw e (live_entries-outlived ds l)
    | inr e ↦ rw e (live_entries-outlived ds (without d.pid l) ∙ live_entries-without d.pid l e)
  ]

  live_entries_self : (l : List DaemonEntry) → All (λ d. alive d.pid ≡ true) l → live_entries l ≡ l
  unfolding live_entries
  live_entries_self [] h = refl
  live_entries_self (d ∷ ds) (e, h) = rw e (ap (◌∷◌ d) (live_entries_self ds h))

  live_entries-All : (l : List DaemonEntry) → All (λ d. alive d.pid ≡ true) (live_entries l)
  unfolding live_entries
  live_entries-All [] = tt
  live_entries-All (d ∷ ds) = elim (Bool-cases (alive d.pid)) [
    | inl e ↦ rw e (e, live_entries-All ds)
    | inr e ↦ rw e (live_entries-All ds)
  ]

  -- The process of the entry runs, or the entry is one of those.
  abbrev Accounted : List DaemonEntry → DaemonEntry → Type 0
  Accounted ds d = (alive d.pid ≡ true) ⊎ HasPid d.pid ds

  Accounted-alive :
      (d : DaemonEntry) (ds : List DaemonEntry) (e : DaemonEntry)
      → alive d.pid ≡ true
      → Accounted (d ∷ ds) e
      → Accounted ds e
  Accounted-alive d ds e up (inl h) = inl h
  Accounted-alive d ds e up (inr (inl p)) = inl (ap alive (sym p) ∙ up)
  Accounted-alive d ds e up (inr (inr q)) = inr q

  Accounted-dead :
      (d : DaemonEntry) (ds : List DaemonEntry) (e : DaemonEntry)
      → Accounted (d ∷ ds) e × (e.pid ≢ d.pid)
      → Accounted ds e
  Accounted-dead d ds e (inl h, n) = inl h
  Accounted-dead d ds e (inr (inl p), n) = absurd (n (sym p))
  Accounted-dead d ds e (inr (inr q), n) = inr q

  outlived-All :
      (ds l : List DaemonEntry)
      → All (Accounted ds) l
      → All (λ d. alive d.pid ≡ true) (outlived ds l)
  unfolding outlived
  outlived-All [] l h =
      All-map (Accounted []) (λ d. alive d.pid ≡ true) l
        (λ d. elim [ inl p ↦ p | inr q ↦ absurd q ]) h
  outlived-All (d ∷ ds) l h = elim (Bool-cases (alive d.pid)) [
    | inl e ↦ rw e (
        outlived-All ds l
          (All-map (Accounted (d ∷ ds)) (Accounted ds) l (λ x. Accounted-alive d ds x e) h))
    | inr e ↦ rw e (
        outlived-All ds (without d.pid l) (
          All-map (λ x. Accounted (d ∷ ds) x × (x.pid ≢ d.pid)) (Accounted ds) (without d.pid l)
            (Accounted-dead d ds) (without-All (Accounted (d ∷ ds)) d.pid l h)))
  ]

  All-Accounted : (ds : List DaemonEntry) → All (Accounted ds) ds
  All-Accounted ds = All-map (λ d. HasPid d.pid ds) (Accounted ds) ds (λ d. inr) (has_own_pid ds)

  -- What is left are the entries of running processes.
  outlived_self : (l : List DaemonEntry) → outlived l l ≡ live_entries l
  outlived_self l =
      sym (live_entries_self (outlived l l) (outlived-All l l (All-Accounted l)))
      ∙ live_entries-outlived l l

  module _ (j : SavedJson) where
    abbrev pub read : Files → List DaemonEntry
    read f = read_all j.daemon_from_str f.daemons

    cleanup-live_entries :
        (ds : List DaemonEntry) (f : Files) → (cleanup j alive ds f).0 ≡ live_entries ds
    unfolding cleanup live_entries
    cleanup-live_entries [] f = refl
    cleanup-live_entries (d ∷ ds) f = elim (Bool-cases (alive d.pid)) [
      | inl e ↦ rw e (ap (◌∷◌ d) (cleanup-live_entries ds f))
      | inr e ↦ rw e (cleanup-live_entries ds (remove_daemon_entry j d.pid f))
    ]

    pub remove_daemon_entry-IsDirectory :
        (pid : ℕ) (f : Files)
        → IsDirectory j f.daemons
        → IsDirectory j (remove_daemon_entry j pid f).daemons
    unfolding remove_daemon_entry
    remove_daemon_entry-IsDirectory pid f h = Table.remove-All _ (json_file (show pid)) f.daemons h

    pub read-remove_daemon_entry :
        (pid : ℕ) (f : Files)
        → IsPid pid
        → IsDirectory j f.daemons
        → read (remove_daemon_entry j pid f) ≡ without pid (read f)
    unfolding remove_daemon_entry
    read-remove_daemon_entry pid f h d = read_all-remove j pid f.daemons h d

    pub cleanup-IsDirectory :
        (ds : List DaemonEntry) (f : Files)
        → IsDirectory j f.daemons
        → IsDirectory j (cleanup j alive ds f).1.daemons
    unfolding cleanup
    cleanup-IsDirectory [] f h = h
    cleanup-IsDirectory (d ∷ ds) f h = elim (Bool-cases (alive d.pid)) [
      | inl e ↦ rw e (cleanup-IsDirectory ds f h)
      | inr e ↦ rw e (
          cleanup-IsDirectory ds (remove_daemon_entry j d.pid f)
            (remove_daemon_entry-IsDirectory d.pid f h))
    ]

    read-cleanup :
        (ds : List DaemonEntry) (f : Files)
        → All (λ d. IsPid d.pid) ds
        → IsDirectory j f.daemons
        → read (cleanup j alive ds f).1 ≡ outlived ds (read f)
    unfolding cleanup outlived
    read-cleanup [] f small h = refl
    read-cleanup (d ∷ ds) f (p, small) h = elim (Bool-cases (alive d.pid)) [
      | inl e ↦ rw e (read-cleanup ds f small h)
      | inr e ↦ rw e (
          read-cleanup ds (remove_daemon_entry j d.pid f) small
            (remove_daemon_entry-IsDirectory d.pid f h)
          ∙ ap (outlived ds) (read-remove_daemon_entry d.pid f p h))
    ]

    pub cleanup_and_list_daemons-IsDirectory :
        (f : Files)
        → IsDirectory j f.daemons
        → IsDirectory j (cleanup_and_list_daemons j alive f).1.daemons
    unfolding cleanup_and_list_daemons
    cleanup_and_list_daemons-IsDirectory f h = cleanup-IsDirectory (list_daemon_entries j f) f h

    -- Nothing is removed of what runs.
    cleanup_self :
        (ds : List DaemonEntry) (f : Files)
        → All (λ d. alive d.pid ≡ true) ds
        → cleanup j alive ds f ≡ (ds, f)
    unfolding cleanup
    cleanup_self [] f h = refl
    cleanup_self (d ∷ ds) f (e, h) = rw e (ap (λ r. (d ∷ r.0, r.1)) (cleanup_self ds f h))

    -- In a directory whose files are entries named for their processes, `ls` lists the entries of
    -- the running processes, all of them and in order, removes the others, and lists the same when
    -- it is run again and no process has ended: then it also leaves the directory as it is.
    pub cleanup_and_list_daemons-live_entries :
        (f : Files)
        → IsDirectory j f.daemons
        → let listed = cleanup_and_list_daemons j alive f in
          (listed.0 ≡ live_entries (list_daemon_entries j f))
          × (list_daemon_entries j listed.1 ≡ listed.0)
          × (cleanup_and_list_daemons j alive listed.1 ≡ listed)
    unfolding cleanup_and_list_daemons list_daemon_entries
    cleanup_and_list_daemons-live_entries f h =
        let ds = read f in
        let f' = (cleanup j alive ds f).1 in
        let live = cleanup-live_entries ds f in
        let left = read-cleanup ds f (read_all-IsPid j f.daemons h) h ∙ outlived_self ds in
        (
          live,
          left ∙ sym live,
          ap (λ l. cleanup j alive l f') left
              ∙ cleanup_self (live_entries ds) f' (live_entries-All ds)
              ∙ ap (λ l. (l, f')) (sym live),
        )
