-- ===== src/Client/Saved/Sessions.antt =====
-- Saved sessions are read back.
use neutun.Base.{
  Text, Text-discrete, ◌==◌, ◌⊎◌, inl, inr, Bool, false, Option-cases, if◌then◌else◌, ◌≡◌, refl, sym, ap, ◌∙◌, true, Option, none, some,
  codes, ◌++◌, length, ==_iff, length-append, take, take-append, arith,
}
use mathlib.Core.Path.{ap₂}
use neutun.Table
use neutun.Table.{Table}
use neutun.Client.Saved.{
  SessionConfig, Files, SavedJson, ReadsBack, parse_file, read_file, json_file, save_session,
  load_session, delete_session, save_last_session, load_last_session,
}

pub append_cancel : (a b t : Text) → a ++ t ≡ b ++ t → a ≡ b
append_cancel a b t e =
    let same : length a ≡ length b =
      omega (arith, ap length e, length-append a t, length-append b t) in
    sym (take-append (length a) a t refl) ∙ ap₂ take same e ∙ take-append (length b) b t refl

pub json_file-eq : (a b : Text) → (json_file a == json_file b) ≡ (a == b)
json_file-eq a b = elim (Text-discrete a b) [
  | yes e ↦ ground (arith, ap json_file e)
  | no n ↦ elim (Text-discrete (json_file a) (json_file b)) [
    | yes f ↦ absurd (n (append_cancel a b (codes ".json") f))
    | no g ↦ ground arith
  ]
]

read_file-insert :
    {A : Type 0} (parse : Text → Option A) (n k contents : Text) (dir : Table Text)
    → read_file parse k (Table.insert n contents dir)
      ≡ (if n == k then parse_file parse (some contents) else read_file parse k dir)
read_file-insert parse n k contents dir = ground (arith, Table.get-insert n k contents dir)

read_file-remove :
    {A : Type 0} (parse : Text → Option A) (n k : Text) (dir : Table Text)
    → read_file parse k (Table.remove n dir) ≡ (if n == k then none else read_file parse k dir)
read_file-remove parse n k dir = ground (arith, Table.get-remove n k dir)

-- `neutun saves add`: the last session, saved under a name; none if there is no last session.
unfoldable pub saves_add : SavedJson → Text → Files → Option Files
saves_add j name f = elim (load_last_session j f) [
  | none ↦ none
  | some session ↦ some (save_session j (record session { name = name }) f)
]

-- What a deletion does: nothing without the file, and else it removes the file.
abbrev pub Deleted : Text → Files → Bool × Files → Type 0
Deleted name f out =
    ((Table.get (json_file name) f.saves ≡ none) × (out ≡ (false, f)))
    ⊎ ((t : Text) × (Table.get (json_file name) f.saves ≡ some t)
      × (out ≡ (true, record f { saves = Table.remove (json_file name) f.saves })))

module _ (j : SavedJson) where
  save_session_lem :
      (s : SessionConfig) (name : Text) (f : Files)
      → ReadsBack j.session_from_str j.session_to_string s
      → load_session j name (save_session j s f)
        ≡ (if s.name == name then some s else load_session j name f)
  unfolding load_session save_session
  save_session_lem s name f law = ground (
    arith,
    read_file-insert j.session_from_str (json_file s.name) (json_file name) (j.session_to_string s)
        f.saves,
    json_file-eq s.name name,
    law,
  )

  delete_session_lem :
      (old name : Text) (f : Files)
      → load_session j name (delete_session j old f).1
        ≡ (if old == name then none else load_session j name f)
  unfolding load_session delete_session
  delete_session_lem old name f = ground (
    arith,
    read_file-remove j.session_from_str (json_file old) (json_file name) f.saves,
    json_file-eq old name,
    ==_iff old name,
  )

  delete_session-Deleted :
      (name : Text) (f : Files) → Deleted name f (delete_session j name f)
  unfolding delete_session
  delete_session-Deleted name f = elim (Option-cases (Table.get (json_file name) f.saves)) [
    | inl e ↦ inl (e, ground arith)
    | inr (t, e) ↦ inr (t, e, ground arith)
  ]

  -- A saved session is loaded under its own name; a session of another name, or none, is found there
  -- as before. Deleting a session answers true if its file is there, and then the file is removed,
  -- and false if there is none, and then the files stay. Afterwards no session of that name is found
  -- and the others are as before. A session that was just saved is deleted once: a second deletion
  -- answers false.
  pub load_session-save_session :
      (s : SessionConfig) (name : Text) (f : Files)
      → ReadsBack j.session_from_str j.session_to_string s
      → (load_session j name (save_session j s f)
          ≡ (if s.name == name then some s else load_session j name f))
        × (load_session j name (delete_session j s.name f).1
            ≡ (if s.name == name then none else load_session j name f))
        × Deleted s.name f (delete_session j s.name f)
        × ((delete_session j s.name (save_session j s f)).0 ≡ true)
        × ((delete_session j s.name (delete_session j s.name (save_session j s f)).1).0 ≡ false)
  unfolding load_session save_session delete_session
  load_session-save_session s name f law = (
    save_session_lem s name f law,
    delete_session_lem s.name name f,
    delete_session-Deleted s.name f,
    ground (
      arith,
      Table.get-insert (json_file s.name) (json_file s.name) (j.session_to_string s) f.saves,
    ),
    ground (
      arith,
      Table.get-insert (json_file s.name) (json_file s.name) (j.session_to_string s) f.saves,
      Table.get-remove (json_file s.name) (json_file s.name) (save_session j s f).saves,
    ),
  )

  -- `neutun saves add` after a tunnel was opened saves that tunnel's session under the name, and it
  -- can be restored by that name.
  pub load_session-saves_add :
      (s : SessionConfig) (name : Text) (f g : Files)
      → ReadsBack j.session_from_str j.session_to_string s
      → ReadsBack j.session_from_str j.session_to_string (record s { name = name })
      → saves_add j name (save_last_session j s f) ≡ some g
      → load_session j name g ≡ some (record s { name = name })
  unfolding saves_add load_last_session save_last_session
  load_session-saves_add s name f g law law' e =
      let last : load_last_session j (save_last_session j s f) ≡ some s = ground (
        arith,
        read_file-insert j.session_from_str (codes "last_session.json") (codes "last_session.json")
            (j.session_to_string s) f.settings,
        law,
      ) in
      let named = record s { name = name } in
      let h : SessionConfig = named in
      ground (arith, last, (load_session-save_session h name (save_last_session j s f) law').0)
