-- ===== src/Gts/Environment/Lookup.antt =====
-- crates/night24-gts/src/object/environment.rs: what is read after a write.
use night.Gts.Chunk.{Object}
use night.Text.{Text, text_eq_refl, text_eq, text_eq_iff}
use night.Gts.Value.{find_text}
use night.Prelude.{
  some-eq, if◌then◌else◌, Bool-cases, Option-cases, ◌≡◌, refl, ap, ◌∙◌, inl, inr, true, false, some,
  List, ◌∷◌, arith, [], sym, none,
}
use night.Gts.Environment.{
  Env, Scope, Binding, find_binding, insert_binding, assign_scopes, assign, get,
}

find_text-insert_binding :
    (name : Text) (b : Binding) (scope : Scope)
    → find_text name (insert_binding name b scope) ≡ some b
unfolding find_text insert_binding
find_text-insert_binding name b [] = rw (text_eq_refl name)
find_text-insert_binding name b ((k, old) ∷ scope) = elim (Bool-cases (text_eq k name)) [
  | inl t ↦ rw (t, insert_binding) (rw (t, find_text))
  | inr f ↦ rw (f, insert_binding) (rw (f, find_text) (find_text-insert_binding name b scope))
]

find_text-insert_other :
    (name key : Text) (b : Binding) (scope : Scope)
    → text_eq name key ≡ false
    → find_text key (insert_binding name b scope) ≡ find_text key scope
unfolding find_text insert_binding
find_text-insert_other name key b [] h = rw h
find_text-insert_other name key b ((k, old) ∷ scope) h = elim (Bool-cases (text_eq k name)) [
  | inl t ↦
      let same : text_eq k key ≡ false = ap (λ n. text_eq n key) ((text_eq_iff k name).0 t) ∙ h in
      rw (t, insert_binding) (rw (same, find_text))
  | inr f ↦
      rw (f, insert_binding)
        (ap (λ r. if text_eq k key then some old else r)
          (find_text-insert_other name key b scope h))
]

-- A binding that is found and not constant is assigned.
pub assign_scopes-found :
    (name : Text) (v : Object) (scopes : List Scope) (b : Binding)
    → find_binding name scopes ≡ some b
    → b.is_const ≡ false
    → ((assign_scopes name v scopes).1 ≡ true) × ((assign_scopes name v scopes).2 ≡ false)
unfolding find_binding assign_scopes
assign_scopes-found name v [] b h k = ground arith
assign_scopes-found name v (scope ∷ scopes) b h k = elim (Option-cases (find_text name scope)) [
  | inl n ↦
      rw (n, assign_scopes) (assign_scopes-found name v scopes b (rw (n, find_binding) at h) k)
  | inr (d, f) ↦
      let same : d ≡ b = some-eq (rw (f, find_binding) at h) in
      let free : d.is_const ≡ false = ap (λ x. x.is_const) same ∙ k in
      rw (f, free, assign_scopes) (refl, refl)
]

find_binding-assign :
    (name : Text) (v : Object) (scopes : List Scope) (b : Binding)
    → find_binding name scopes ≡ some b
    → b.is_const ≡ false
    → find_binding name (assign_scopes name v scopes).0 ≡ some (record b { value = v })
unfolding find_binding assign_scopes
find_binding-assign name v [] b h k = ground arith
find_binding-assign name v (scope ∷ scopes) b h k = elim (Option-cases (find_text name scope)) [
  | inl n ↦
      rw (n, assign_scopes)
        (rw (n, find_binding) (find_binding-assign name v scopes b (rw (n, find_binding) at h) k))
  | inr (d, f) ↦
      let same : d ≡ b = some-eq (rw (f, find_binding) at h) in
      let free : d.is_const ≡ false = ap (λ x. x.is_const) same ∙ k in
      rw (f, free, assign_scopes)
        (rw
          (
            find_text-insert_binding name (record { value = v; is_const = false }) scope,
            find_binding,
          )
          (ap (λ x. some (record { value = v; is_const = x })) (sym k)))
]

find_binding-assign_other :
    (name key : Text) (v : Object) (scopes : List Scope)
    → text_eq name key ≡ false
    → find_binding key (assign_scopes name v scopes).0 ≡ find_binding key scopes
unfolding find_binding assign_scopes
find_binding-assign_other name key v [] h = refl
find_binding-assign_other name key v (scope ∷ scopes) h =
    elim (Option-cases (find_text name scope)) [
      | inl n ↦
          rw (n, assign_scopes)
            (ap (λ r. elim (find_text key scope) [ some b ↦ some b | none ↦ r ])
              (find_binding-assign_other name key v scopes h))
      | inr (d, f) ↦ elim (Bool-cases d.is_const) [
        | inl t ↦ rw (f, t, assign_scopes)
        | inr u ↦
            rw (f, u, assign_scopes)
              (rw (
                find_text-insert_other name key (record { value = v; is_const = false }) scope h,
                find_binding,
              ))
      ]
    ]

module _ (env : Env) (name : Text) (v : Object) (b : Binding)
    (found : find_binding name env.scopes ≡ some b) where
  -- Assigning to a name that is bound and not constant succeeds; the name then has the value, and every
  -- other name what it had.
  pub get-assign :
      b.is_const ≡ false
      → ((assign name v env).1 ≡ true)
        × ((assign name v env).2 ≡ false)
        × (get (assign name v env).0 name ≡ some v)
        × ((key : Text) → text_eq name key ≡ false → get (assign name v env).0 key ≡ get env key)
  unfolding get assign
  get-assign free =
      let (here, free_here) = assign_scopes-found name v env.scopes b found free in
      rw (here, free_here, assign)
        (
          refl,
          refl,
          rw (find_binding-assign name v env.scopes b found free, get),
          λ key other. rw (find_binding-assign_other name key v env.scopes other, get),
        )
