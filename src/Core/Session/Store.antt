-- ===== src/Core/Session/Store.antt =====
-- crates/night24-core/src/session.rs: what the manager's map holds after each call.
use night.Text.{Text, text_eq, text_eq_iff}
use night.Core.Session.{get, save, Memory, insert, delete, Session}
use night.Prelude.{
  if◌then◌else◌, Bool-cases, ◌≡◌, refl, sym, inl, inr, false, some, ◌∷◌, arith, [], is_some, none,
}

module _ {V : Type 0} where
  pub get-insert :
      (memory : Memory V) (id : Text) (s : Session V) (id' : Text)
      → get (insert memory id s) id' ≡ (if text_eq id id' then some s else get memory id')
  unfolding get insert
  get-insert [] id s id' = refl
  get-insert ((k, t) ∷ memory) id s id' =
      ground
        (arith, text_eq_iff k id, text_eq_iff k id', text_eq_iff id id', get-insert memory id s id')

  -- A session that is saved is found under its id, and no other id is touched.
  pub get-save :
      (memory : Memory V) (s : Session V) (id : Text)
      → get (save memory s) id ≡ (if text_eq s.id id then some s else get memory id)
  unfolding save
  get-save memory s id = get-insert memory s.id s id

  -- The keys of the map are distinct, and each is the id of its session.
  unfoldable pub Fresh : Text → Memory V → Type 0
  Fresh id [] = Unit
  Fresh id ((k, s) ∷ memory) = (text_eq k id ≡ false) × Fresh id memory

  unfoldable pub IsKeyed : Memory V → Type 0
  IsKeyed [] = Unit
  IsKeyed ((k, s) ∷ memory) = (s.id ≡ k) × Fresh k memory × IsKeyed memory

  insert-Fresh :
      (memory : Memory V) (id k : Text) (s : Session V)
      → text_eq id k ≡ false
      → Fresh k memory
      → Fresh k (insert memory id s)
  unfolding Fresh insert
  insert-Fresh [] id k s h f = (h, tt)
  insert-Fresh ((l, t) ∷ memory) id k s h f = elim (Bool-cases (text_eq l id)) [
    | inl e ↦ rw e f
    | inr e ↦ rw e (f.0, insert-Fresh memory id k s h f.1)
  ]

  pub insert-IsKeyed :
      (memory : Memory V) (s : Session V) → IsKeyed memory → IsKeyed (insert memory s.id s)
  unfolding IsKeyed insert Fresh
  insert-IsKeyed [] s h = (refl, tt, tt)
  insert-IsKeyed ((l, t) ∷ memory) s h = elim (Bool-cases (text_eq l s.id)) [
    | inl e ↦ rw e (sym ((text_eq_iff l s.id).0 e), h.1, h.2)
    | inr e ↦ rw e (
      h.0,
      insert-Fresh memory s.id l s (ground (arith, e, text_eq_iff l s.id, text_eq_iff s.id l)) h.1,
      insert-IsKeyed memory s h.2,
    )
  ]

  delete-Fresh : (memory : Memory V) (id k : Text) → Fresh k memory → Fresh k ((delete memory id).0)
  unfolding Fresh delete
  delete-Fresh [] id k f = tt
  delete-Fresh ((l, t) ∷ memory) id k f = elim (Bool-cases (text_eq l id)) [
    | inl e ↦ rw e f.1
    | inr e ↦ rw e (f.0, delete-Fresh memory id k f.1)
  ]

  pub delete-IsKeyed :
      (memory : Memory V) (id : Text) → IsKeyed memory → IsKeyed ((delete memory id).0)
  unfolding IsKeyed delete
  delete-IsKeyed [] id h = tt
  delete-IsKeyed ((l, t) ∷ memory) id h = elim (Bool-cases (text_eq l id)) [
    | inl e ↦ rw e h.2
    | inr e ↦ rw e (h.0, delete-Fresh memory id l h.1, delete-IsKeyed memory id h.2)
  ]

  get-Fresh : (memory : Memory V) (id : Text) → Fresh id memory → get memory id ≡ none
  unfolding Fresh get
  get-Fresh [] id f = refl
  get-Fresh ((l, t) ∷ memory) id f = rw (f.0) (get-Fresh memory id f.1)

  pub get-id :
      (memory : Memory V) (id : Text) (s : Session V)
      → IsKeyed memory
      → get memory id ≡ some s
      → s.id ≡ id
  unfolding IsKeyed get
  get-id [] id s h e = ground arith
  get-id ((l, t) ∷ memory) id s h e = ground (arith, text_eq_iff l id, get-id memory id s h.2, h.0)

  deleted :
      (memory : Memory V) (id id' : Text)
      → IsKeyed memory
      → get ((delete memory id).0) id' ≡ (if text_eq id id' then none else get memory id')
  unfolding IsKeyed get delete
  deleted [] id id' h = ground arith
  deleted ((l, t) ∷ memory) id id' h = ground (
    arith,
    text_eq_iff l id,
    text_eq_iff l id',
    text_eq_iff id id',
    deleted memory id id' h.2,
    get-Fresh memory l h.1,
  )

  delete-found : (memory : Memory V) (id : Text) → (delete memory id).1 ≡ is_some (get memory id)
  unfolding get delete
  delete-found [] id = refl
  delete-found ((l, t) ∷ memory) id = ground (arith, delete-found memory id)

  -- In a keyed map a deleted session is gone, every other session stays, and `delete` answers whether
  -- the session was there.
  get-delete :
      (memory : Memory V) (id id' : Text)
      → IsKeyed memory
      → (get ((delete memory id).0) id' ≡ (if text_eq id id' then none else get memory id'))
        × ((delete memory id).1 ≡ is_some (get memory id))
  get-delete memory id id' h = (deleted memory id id' h, delete-found memory id)
