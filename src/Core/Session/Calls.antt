-- ===== src/Core/Session/Calls.antt =====
-- crates/night24-core/src/session.rs: the calls of the manager, one after another.
use mathlib.Core.Option.{map as opt_map}
use night.Core.Session.Store.{IsKeyed, insert-IsKeyed, delete-IsKeyed, get-save, get-id}
use night.Core.Session.{
  Memory, SessionType, create, Session, save, get, delete, short_id, rename_session, fork_session,
  fork_history, rename, fork, new, not_found,
}
use night.Text.{Text, text_eq, lit, text_eq_iff}
use night.Prelude.{
  ok, if◌then◌else◌, ℕ, ◌≡◌, Option, some, ◌>>=◌, some-eq, Option-cases, refl, subst, inl, inr,
  none, ◌++◌, err, sym, ap, ◌∙◌, Result, ◌⊎◌, arith,
}

-- A call of the manager, with the id and the time that it draws.
pub data Call (V : Type 0) : Type 0 where
  create_call : Text → ℕ → Text → Text → SessionType → Call V
  save_call : Session V → Call V
  delete_call : Text → Call V
  fork_call : Text → ℕ → Text → Option ℕ → Call V
  rename_call : ℕ → Text → Text → Call V

module _ {V : Type 0} where
  -- The map after a call; `none` is a panic.
  unfoldable pub step : Memory V → Call V → Option (Memory V)
  step memory (create_call uuid now name dir session_type) =
      some ((create uuid now memory name dir session_type).0)
  step memory (save_call s) = some (save memory s)
  step memory (delete_call id) = some ((delete memory id).0)
  step memory (fork_call uuid now id at_index) = do
    r ← fork_session uuid now memory id at_index
    some (r.0)
  step memory (rename_call now id name) = some ((rename_session now memory id name).0)

  save-IsKeyed : (memory : Memory V) (s : Session V) → IsKeyed memory → IsKeyed (save memory s)
  unfolding save
  save-IsKeyed memory s h = insert-IsKeyed memory s h

  create-IsKeyed :
      (uuid : Text) (now : ℕ) (memory : Memory V) (name dir : Text) (session_type : SessionType)
      → IsKeyed memory
      → IsKeyed ((create uuid now memory name dir session_type).0)
  unfolding create
  create-IsKeyed uuid now memory name dir session_type h =
      insert-IsKeyed memory (new uuid now name dir session_type) h

  rename_session-IsKeyed :
      (now : ℕ) (memory : Memory V) (id new_name : Text)
      → IsKeyed memory
      → IsKeyed ((rename_session now memory id new_name).0)
  unfolding rename_session
  rename_session-IsKeyed now memory id new_name h = elim (Option-cases (get memory id)) [
    | inl e ↦ rw (e, rename_session) h
    | inr (s, e) ↦ rw (e, rename_session) (save-IsKeyed memory (rename now s new_name) h)
  ]

  unfoldable copy : Text → ℕ → Session V → Option ℕ → Text → Session V
  copy uuid now s at_index short = record {
    id = uuid;
    name = lit "fork of " ++ (s.name ++ (lit " (" ++ (short ++ lit ")")));
    session_type = s.session_type;
    parent_id = s.parent_id;
    working_dir = s.working_dir;
    conversation = fork_history at_index s.conversation;
    created_at = now;
    updated_at = now;
    archived_at = none;
  }

  fork_session_ok :
      (uuid : Text) (now : ℕ) (memory : Memory V) (source_id : Text) (at_index : Option ℕ)
      (source : Session V) (short : Text)
      → get memory source_id ≡ some source
      → short_id source ≡ some short
      → fork_session uuid now memory source_id at_index
        ≡ some (
          save memory (copy uuid now source at_index short),
          ok (copy uuid now source at_index short),
        )
  unfolding fork_session fork copy
  fork_session_ok uuid now memory source_id at_index source short found cut =
      rw (found, cut, fork_session, fork) refl

  fork_session-missing :
      (uuid : Text) (now : ℕ) (memory : Memory V) (source_id : Text) (at_index : Option ℕ)
      → get memory source_id ≡ none
      → fork_session uuid now memory source_id at_index ≡ some (memory, err (not_found source_id))
  unfolding fork_session
  fork_session-missing uuid now memory source_id at_index n = rw (n, fork_session) refl

  fork_session-cut :
      (uuid : Text) (now : ℕ) (memory : Memory V) (source_id : Text) (at_index : Option ℕ)
      (source : Session V)
      → get memory source_id ≡ some source
      → short_id source ≡ none
      → fork_session uuid now memory source_id at_index ≡ none
  unfolding fork_session fork
  fork_session-cut uuid now memory source_id at_index source found cut =
      rw (found, cut, fork_session, fork) refl

  -- A fork panics, leaves the or saves one session.
  fork_session-result :
      (uuid : Text) (now : ℕ) (memory : Memory V) (source_id : Text) (at_index : Option ℕ)
      → (fork_session uuid now memory source_id at_index ≡ none)
        ⊎ ((m : Memory V) × (r : Result (Session V) Text) × (fork_session uuid now memory source_id
                at_index
              ≡ some (m, r))
            × (IsKeyed memory → IsKeyed m))
  fork_session-result uuid now memory source_id at_index =
      elim (Option-cases (get memory source_id)) [
        | inl n ↦ inr (
          memory,
          err (not_found source_id),
          fork_session-missing uuid now memory source_id at_index n,
          (λ h. h),
        )
        | inr (s, f) ↦ elim (Option-cases (short_id s)) [
          | inl c ↦ inl (fork_session-cut uuid now memory source_id at_index s f c)
          | inr (short, c) ↦ inr (
            save memory (copy uuid now s at_index short),
            ok (copy uuid now s at_index short),
            fork_session_ok uuid now memory source_id at_index s short f c,
            (λ h. save-IsKeyed memory (copy uuid now s at_index short) h),
          )
        ]
      ]

  fork_session-IsKeyed :
      (uuid : Text) (now : ℕ) (memory : Memory V) (id : Text) (at_index : Option ℕ)
      (memory' : Memory V)
      → IsKeyed memory
      → step memory (fork_call uuid now id at_index) ≡ some memory'
      → IsKeyed memory'
  unfolding step
  fork_session-IsKeyed uuid now memory id at_index memory' h e =
      elim (fork_session-result uuid now memory id at_index) [
        | inl p ↦ ground (arith, p)
        | inr (m, r, q, k) ↦
            subst IsKeyed (some-eq (sym (ap (λ o. o >>= (λ p. some (p.0))) q) ∙ e)) (k h)
      ]

  -- Every call keeps the map keyed by the ids of its sessions, with no id twice.
  pub step-IsKeyed :
      (memory : Memory V) (call : Call V) (memory' : Memory V)
      → IsKeyed memory
      → step memory call ≡ some memory'
      → IsKeyed memory'
  unfolding step
  step-IsKeyed memory (create_call uuid now name dir session_type) memory' h e =
      subst IsKeyed (some-eq e) (create-IsKeyed uuid now memory name dir session_type h)
  step-IsKeyed memory (save_call s) memory' h e =
      subst IsKeyed (some-eq e) (save-IsKeyed memory s h)
  step-IsKeyed memory (delete_call id) memory' h e =
      subst IsKeyed (some-eq e) (delete-IsKeyed memory id h)
  step-IsKeyed memory (fork_call uuid now id at_index) memory' h e =
      fork_session-IsKeyed uuid now memory id at_index memory' h e
  step-IsKeyed memory (rename_call now id name) memory' h e =
      subst IsKeyed (some-eq e) (rename_session-IsKeyed now memory id name h)

  -- A fork of a session that is found, under a new id and with a short id that can be cut, succeeds:
  -- the new session is stored under the new id with the asked part of the history, and the
  -- source and every other session stay as they were.
  pub fork_session_lem :
      (uuid : Text) (now : ℕ) (memory : Memory V) (source_id : Text) (at_index : Option ℕ)
      (source : Session V) (short : Text)
      → get memory source_id ≡ some source
      → short_id source ≡ some short
      → (memory' : Memory V) × (forked : Session V) × (fork_session uuid now memory source_id
            at_index
          ≡ some (memory', ok forked))
        × (forked.conversation ≡ fork_history at_index source.conversation)
        × ((id : Text) → get memory' id ≡ (if text_eq uuid id then some forked else get memory id))
  unfolding copy
  fork_session_lem uuid now memory source_id at_index source short found cut =
      let forked : Session V = copy uuid now source at_index short in
      (
        save memory forked,
        forked,
        fork_session_ok uuid now memory source_id at_index source short found cut,
        refl,
        (λ id. get-save memory forked id),
      )

  rename_session-missing :
      (now : ℕ) (memory : Memory V) (id new_name : Text)
      → get memory id ≡ none
      → rename_session now memory id new_name ≡ (memory, err (not_found id))
  unfolding rename_session
  rename_session-missing now memory id new_name n = rw (n, rename_session) refl

  rename_session-found :
      (now : ℕ) (memory : Memory V) (id new_name : Text) (s : Session V)
      → get memory id ≡ some s
      → rename_session now memory id new_name
        ≡ (save memory (rename now s new_name), ok (rename now s new_name))
  unfolding rename_session
  rename_session-found now memory id new_name s f = rw (f, rename_session) refl

  -- In a keyed map a rename that succeeds changes the name and the time of the session under that id,
  -- not its history, and no other session; one of an unknown id changes nothing and is an error.
  pub rename_session_lem :
      (now : ℕ) (memory : Memory V) (id new_name id' : Text)
      → IsKeyed memory
      → get ((rename_session now memory id new_name).0) id' ≡ (
          if text_eq id id'
          then opt_map (λ s. rename now s new_name) (get memory id')
          else get memory id')
  unfolding rename
  rename_session_lem now memory id new_name id' h = elim (Option-cases (get memory id)) [
    | inl n ↦
        rw (rename_session-missing now memory id new_name n) (ground (arith, n, text_eq_iff id id'))
    | inr (s, f) ↦ rw (rename_session-found now memory id new_name s f) (
        ground (
          arith,
          f,
          get-save memory (rename now s new_name) id',
          get-id memory id s h f,
          text_eq_iff id id',
        ))
  ]
