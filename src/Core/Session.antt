-- ===== src/Core/Session.antt =====
-- crates/night24-core/src/session.rs: a session, its forks and names, and the manager without a
-- database. `Uuid::new_v4` and `Utc::now` are arguments.
pub mod Store
pub mod Calls
use night.Core.Model.{Message}
use night.Text.{Text, slice_to, lit, text_eq, len}
use night.Prelude.{
  Result, ok, err, if◌then◌else◌, take, ℕ, min, Bool, true, false, Option, none, some, List, ◌∷◌,
  ◌++◌, ◌>>=◌, [], not,
}

pub data SessionType : Type 0 where
  user_session scheduled sub_agent hidden terminal gateway acp : SessionType

pub record Session (V : Type 0) : Type 0 where
  pub id : Text
  pub name : Text
  pub session_type : SessionType
  pub parent_id : Option Text
  pub working_dir : Text
  pub conversation : List (Message V)
  pub created_at : ℕ
  pub updated_at : ℕ
  pub archived_at : Option ℕ

-- The `HashMap` of the manager.
abbrev pub Memory : Type 0 → Type 0
Memory V = List (Text × Session V)

abbrev pub not_found : Text → Text
not_found id = lit "session not found: " ++ id

module _ {V : Type 0} where
  -- `Session::new`
  unfoldable pub new : Text → ℕ → Text → Text → SessionType → Session V
  new uuid now name working_dir session_type = record {
    id = uuid;
    name = name;
    session_type = session_type;
    parent_id = none;
    working_dir = working_dir;
    conversation = [];
    created_at = now;
    updated_at = now;
    archived_at = none;
  }

  -- `&self.id[..self.id.len().min(8)]`
  abbrev pub short_id : Session V → Option Text
  short_id s = slice_to s.id (min (len s.id) 8)

  abbrev pub fork_history : Option ℕ → List (Message V) → List (Message V)
  fork_history (some n) conversation = take n conversation
  fork_history none conversation = conversation

  unfoldable pub fork : Text → ℕ → Session V → Option ℕ → Option (Session V)
  fork uuid now s at_index = do
    short ← short_id s
    some (record {
      id = uuid;
      name = lit "fork of " ++ (s.name ++ (lit " (" ++ (short ++ lit ")")));
      session_type = s.session_type;
      parent_id = s.parent_id;
      working_dir = s.working_dir;
      conversation = fork_history at_index s.conversation;
      created_at = now;
      updated_at = now;
      archived_at = none;
    })

  unfoldable pub rename : ℕ → Session V → Text → Session V
  rename now s new_name = record s { name = new_name; updated_at = now }

  unfoldable pub get : Memory V → Text → Option (Session V)
  get [] id = none
  get ((k, s) ∷ memory) id = if text_eq k id then some s else get memory id

  unfoldable pub insert : Memory V → Text → Session V → Memory V
  insert [] id s = (id, s) ∷ []
  insert ((k, t) ∷ memory) id s =
      if text_eq k id then (k, s) ∷ memory else (k, t) ∷ insert memory id s

  -- The methods of `SessionManager` while `store` is `None`. `create` and `save` write by the id.
  unfoldable pub save : Memory V → Session V → Memory V
  save memory s = insert memory s.id s

  unfoldable pub create : Text → ℕ → Memory V → Text → Text → SessionType → Memory V × Session V
  create uuid now memory name working_dir session_type =
      let s : Session V = new uuid now name working_dir session_type in (insert memory s.id s, s)

  unfoldable pub delete : Memory V → Text → Memory V × Bool
  delete [] id = ([], false)
  delete ((k, t) ∷ memory) id =
      let rest : Memory V × Bool = delete memory id in
      if text_eq k id then (memory, true) else ((k, t) ∷ rest.0, rest.1)

  -- `fork`; the outer `none` is a panic.
  unfoldable pub fork_session :
      Text → ℕ → Memory V → Text → Option ℕ → Option (Memory V × Result (Session V) Text)
  fork_session uuid now memory source_id at_index = elim (get memory source_id) [
    | none ↦ some (memory, err (not_found source_id))
    | some source ↦ (do
      forked ← fork uuid now source at_index
      some (save memory forked, ok forked))
  ]

  unfoldable pub rename_session : ℕ → Memory V → Text → Text → Memory V × Result (Session V) Text
  rename_session now memory id new_name = elim (get memory id) [
    | none ↦ (memory, err (not_found id))
    | some s ↦ let s' : Session V = rename now s new_name in (save memory s', ok s')
  ]
