-- ===== src/Gts/Globals/Names.antt =====
-- crates/night24-gts/src/evaluator/builtins.rs and object/vm.rs: which names are globals after the standard
-- ones are set.
use night.Gts.Environment.{Env}
use night.Gts.Chunk.{Object}
use night.Gts.Globals.{
  set_global, set_globals, with_globals, has_global, register_globals, standard_names,
}
use night.Text.{Text, text_eq_refl, text_eq, lit}
use night.Gts.Value.{find_text}
use night.Prelude.{is_some, Bool-cases, drop, ◌≡◌, refl, ap, inl, inr, true, some, List, ◌∷◌, []}

find_text-set_global :
    (name : Text) (v : Object) (globals : List (Text × Object))
    → find_text name (set_global name v globals) ≡ some v
unfolding find_text set_global
find_text-set_global name v [] = rw (text_eq_refl name, find_text) refl
find_text-set_global name v ((k, old) ∷ rows) = elim (Bool-cases (text_eq k name)) [
  | inl t ↦ rw (t, set_global) (rw (t, find_text) refl)
  | inr f ↦ rw (f, set_global) (rw (f, find_text) (find_text-set_global name v rows))
]

-- A name that is a global stays one.
kept-set_global :
    (key name : Text) (v : Object) (globals : List (Text × Object))
    → is_some (find_text key globals) ≡ true
    → is_some (find_text key (set_global name v globals)) ≡ true
unfolding find_text set_global
kept-set_global key name v [] h = cc
kept-set_global key name v ((k, old) ∷ rows) h = elim (Bool-cases (text_eq k name)) [
  | inl t ↦ elim (Bool-cases (text_eq k key)) [
    | inl s ↦ rw (t, set_global) (rw (s, find_text) refl)
    | inr s ↦ rw (t, set_global) (rw (s, find_text) (rw (s, find_text) at h))
  ]
  | inr f ↦ elim (Bool-cases (text_eq k key)) [
    | inl s ↦ rw (f, set_global) (rw (s, find_text) refl)
    | inr s ↦
        rw (f, set_global)
          (rw (s, find_text) (kept-set_global key name v rows (rw (s, find_text) at h)))
  ]
]

module _ (standard : Text → Object) where
  kept-set_globals :
      (key : Text) (names : List Text) (globals : List (Text × Object))
      → is_some (find_text key globals) ≡ true
      → is_some (find_text key (set_globals standard names globals)) ≡ true
  unfolding set_globals
  kept-set_globals key [] globals h = h
  kept-set_globals key (name ∷ names) globals h =
      kept-set_globals key names (set_global name (standard name) globals)
        (kept-set_global key name (standard name) globals h)

  -- `println` is a global afterwards, whatever the globals were.
  with_globals-println : (env : Env) → has_global (lit "println") (with_globals standard env) ≡ true
  unfolding with_globals has_global register_globals set_globals
  with_globals-println env = elim (Bool-cases (has_global (lit "println") env)) [
    | inl t ↦ rw (t, with_globals) t
    | inr f ↦
        rw (f, with_globals)
          (kept-set_globals (lit "println") (drop 2 standard_names) _ (
            ap is_some (
              find_text-set_global (lit "println") (standard (lit "println"))
                (set_global (lit "console") (standard (lit "console")) env.globals))))
  ]

  -- A run after a run sets no globals again.
  pub with_globals-again :
      (env : Env) → with_globals standard (with_globals standard env) ≡ with_globals standard env
  unfolding with_globals
  with_globals-again env = rw (with_globals-println env, with_globals) refl
