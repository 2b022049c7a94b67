-- ===== src/Client/Daemon/Stopping.antt =====
-- What `neutun daemon stop-all` kills, and what it leaves.
use neutun.Base.{
  ℕ, ◌≡◌, ◌≢◌, refl, sym, ap, ◌∙◌, subst, Bool, List, [], ◌∷◌, map, inl, inr, All, All-map,
}
use neutun.Client.Saved.{
  DaemonEntry, Files, SavedJson, remove_daemon_entry, list_daemon_entries, cleanup_and_list_daemons,
}
use neutun.Client.Daemon.{remove_entries, stop_all_daemons}
use neutun.Client.Daemon.Directory.{IsPid, without, IsDirectory, IsDirectory-empty, read_all-IsPid}
use neutun.Client.Daemon.Listing.{
  HasPid, has_own_pid, without-All, live_entries, remove_daemon_entry-IsDirectory,
  read-remove_daemon_entry, cleanup_and_list_daemons-IsDirectory,
  cleanup_and_list_daemons-live_entries,
}

without_all : List DaemonEntry → List DaemonEntry → List DaemonEntry
without_all [] l = l
without_all (d ∷ ds) l = without_all ds (without d.pid l)

nothing_left : (l : List DaemonEntry) → All (λ d. HasPid d.pid []) l → l ≡ []
nothing_left [] h = refl
nothing_left (d ∷ l) h = absurd h.0

HasPid-tail :
    (d : DaemonEntry) (ds : List DaemonEntry) (e : DaemonEntry)
    → HasPid e.pid (d ∷ ds) × (e.pid ≢ d.pid)
    → HasPid e.pid ds
HasPid-tail d ds e (inl p, n) = absurd (n (sym p))
HasPid-tail d ds e (inr q, n) = q

without_all-nil : (ds l : List DaemonEntry) → All (λ d. HasPid d.pid ds) l → without_all ds l ≡ []
unfolding without_all
without_all-nil [] l h = nothing_left l h
without_all-nil (d ∷ ds) l h = without_all-nil ds (without d.pid l) (
    All-map (λ e. HasPid e.pid (d ∷ ds) × (e.pid ≢ d.pid)) (λ e. HasPid e.pid ds) (without d.pid l)
      (HasPid-tail d ds) (without-All (λ e. HasPid e.pid (d ∷ ds)) d.pid l h))

module _ (alive : ℕ → Bool) (j : SavedJson) where
  remove_entries-pids :
      (ds : List DaemonEntry) (f : Files) → (remove_entries j alive ds f).0 ≡ map (λ d. d.pid) ds
  unfolding remove_entries
  remove_entries-pids [] f = refl
  remove_entries-pids (d ∷ ds) f =
      ap (◌∷◌ d.pid) (remove_entries-pids ds (remove_daemon_entry j d.pid f))

  pub remove_entries-IsDirectory :
      (ds : List DaemonEntry) (f : Files)
      → IsDirectory j f.daemons
      → IsDirectory j (remove_entries j alive ds f).1.daemons
  unfolding remove_entries
  remove_entries-IsDirectory [] f h = h
  remove_entries-IsDirectory (d ∷ ds) f h =
      remove_entries-IsDirectory ds (remove_daemon_entry j d.pid f)
        (remove_daemon_entry-IsDirectory alive j d.pid f h)

  list-remove_entries :
      (ds : List DaemonEntry) (f : Files)
      → All (λ d. IsPid d.pid) ds
      → IsDirectory j f.daemons
      → list_daemon_entries j (remove_entries j alive ds f).1
        ≡ without_all ds (list_daemon_entries j f)
  unfolding remove_entries without_all list_daemon_entries
  list-remove_entries [] f small h = refl
  list-remove_entries (d ∷ ds) f (p, small) h =
      list-remove_entries ds (remove_daemon_entry j d.pid f) small
        (remove_daemon_entry-IsDirectory alive j d.pid f h)
      ∙ ap (without_all ds) (read-remove_daemon_entry alive j d.pid f p h)

  -- In a directory whose files are entries named for their processes, `stop-all` kills exactly the
  -- processes that are recorded and run, and leaves no file.
  pub stop_all_daemons-live_entries :
      (f : Files)
      → IsDirectory j f.daemons
      → let r = stop_all_daemons j alive f in
        (r.0 ≡ map (λ d. d.pid) (live_entries alive (list_daemon_entries j f))) × (r.1.daemons ≡ [])
  unfolding stop_all_daemons list_daemon_entries
  stop_all_daemons-live_entries f h =
      let listed = cleanup_and_list_daemons j alive f in
      let (live, left, _) = cleanup_and_list_daemons-live_entries alive j f h in
      let h' = cleanup_and_list_daemons-IsDirectory alive j f h in
      let small = subst (All (λ d. IsPid d.pid)) left (read_all-IsPid j listed.1.daemons h') in
      let f' = (remove_entries j alive listed.0 listed.1).1 in
      let gone =
        list-remove_entries listed.0 listed.1 small h'
        ∙ ap (without_all listed.0) left
        ∙ without_all-nil listed.0 listed.0 (has_own_pid listed.0) in
      (
        remove_entries-pids listed.0 listed.1 ∙ ap (map (λ d. d.pid)) live,
        IsDirectory-empty j f'.daemons (remove_entries-IsDirectory listed.0 listed.1 h') gone,
      )
