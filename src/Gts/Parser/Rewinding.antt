-- ===== src/Gts/Parser/Rewinding.antt =====
-- crates/night24-gts/src/parser/parser.rs: speculation gives back what it has read.
use night.Gts.Token.{Token}
use night.Text.{Text}
use night.Gts.Lexer.{Chars, Lexer}
use night.Prelude.{
  some-eq, length, get_elem?, take, drop, ℕ, zero, suc, ◌+◌, ◌≤◌, ◌<◌, ◌≡◌, refl, sym, ap, some,
  List, ◌∷◌, ◌++◌, arith, [], ltb, leb, ◌==◌, Bool-cases, Option-cases, get_elem?-kept,
  get_elem?-take, get_elem?-map, inl, inr, get_elem?-append_right, ◌∙◌, none, append-nil,
}
use night.Gts.Parser.{
  Parser, Mark, capture, mark, remove, rewind, commit, read_token, next_token, add_error,
}
use night.Gts.Lexer.Next

-- What a parser may do between a mark and the rewind to it: `base` is one more than the index of the mark, so
-- that only the marks behind it are given up.
pub data Speculates (chars : Chars) (base : ℕ) (p : Parser) : Parser → Type 0 where
  begins : Speculates chars base p p
  reads : (q : Parser) → Speculates chars base p q → Speculates chars base p (next_token chars q)
  reports :
      (q : Parser) (msg : Text)
      → Speculates chars base p q
      → Speculates chars base p (add_error msg q)
  marks_again : (q : Parser) → Speculates chars base p q → Speculates chars base p (mark q).0
  rewinds :
      (q q' : Parser) (idx : ℕ)
      → base ≤ idx
      → rewind idx q ≡ some q'
      → Speculates chars base p q
      → Speculates chars base p q'
  commits :
      (q q' : Parser) (idx : ℕ)
      → base ≤ idx
      → commit idx q ≡ some q'
      → Speculates chars base p q
      → Speculates chars base p q'

pub no_parser : (q : Parser) → none ≡ some q → ⊥
no_parser q h = cc

-- The first tokens to come, at the cursor and from there on.
unfoldable pub ahead : Chars → ℕ → Parser → List Token
ahead chars zero p = []
ahead chars (suc n) p = p.cur ∷ ahead chars n (next_token chars p)

module _ (chars : Chars) where
  -- The tokens that calls of the lexer yield, from one of its states to another.
  abbrev pub Yields : Lexer → List Token → Lexer → Type 0
  Yields l [] l' = l ≡ l'
  Yields l (tok ∷ more) l' =
      (tok ≡ (Next.next_token chars l).0) × Yields (Next.next_token chars l).1 more l'

  Yields-next :
      (l l' : Lexer) (toks : List Token)
      → Yields l toks l'
      → Yields l (toks ++ (Next.next_token chars l').0 ∷ []) (Next.next_token chars l').1
  Yields-next l l' [] h =
      (ap (λ k. (Next.next_token chars k).0) (sym h), ap (λ k. (Next.next_token chars k).1) h)
  Yields-next l l' (tok ∷ more) (e, h) = (e, Yields-next (Next.next_token chars l).1 l' more h)

  -- The mark at this index is that of a parser, with what has been captured since.
  abbrev Marked : ℕ → Parser → Parser → Type 0
  Marked idx p q =
      (captured : List Token) × (get_elem? q.marks idx
        ≡ some (record { cur = p.cur; peek = p.peek; buf = p.buf; captured = captured }))
      × Yields p.lexer captured q.lexer

  get_elem?-remove :
      (xs : List Mark) (i n : ℕ) (m : Mark)
      → i < n
      → get_elem? xs i ≡ some m
      → get_elem? (remove n xs) i ≡ some m
  get_elem?-remove xs i n m b h =
      get_elem?-kept (take n xs) (drop (n + 1) xs) i m (get_elem?-take xs i n m b h)

  Marked-next_token : (idx : ℕ) (p q : Parser) → Marked idx p q → Marked idx p (next_token chars q)
  unfolding next_token read_token
  Marked-next_token idx p q (captured, m, y) = of_buf q.buf refl
    where
      of_buf : (buf : List Token) → q.buf ≡ buf → Marked idx p (next_token chars q)
      of_buf (tok ∷ buf) e = rw e (captured, m, y)
      of_buf [] e =
          let tok = (Next.next_token chars q.lexer).0 in
          rw e (
            captured ++ tok ∷ [],
            get_elem?-map q.marks idx _ (capture tok) m,
            Yields-next p.lexer q.lexer captured y,
          )

  Marked-add_error :
      (idx : ℕ) (p q : Parser) (msg : Text) → Marked idx p q → Marked idx p (add_error msg q)
  unfolding add_error
  Marked-add_error idx p q msg h = elim (Bool-cases (leb 100 (length q.errors))) [
    | inl t ↦ elim (Bool-cases (length q.errors == 100)) [
      | inl u ↦ rw (t, u, add_error) h
      | inr f ↦ rw (t, f, add_error) h
    ]
    | inr f ↦ rw (f, add_error) h
  ]

  Marked-mark : (idx : ℕ) (p q : Parser) → Marked idx p q → Marked idx p (mark q).0
  unfolding mark
  Marked-mark idx p q (captured, m, y) = (captured, get_elem?-kept q.marks _ idx _ m, y)

  Marked-rewind :
      (idx later : ℕ) (p q q' : Parser)
      → idx < later
      → rewind later q ≡ some q'
      → Marked idx p q
      → Marked idx p q'
  unfolding rewind
  Marked-rewind idx later p q q' b e (captured, m, y) =
      elim (Option-cases (get_elem? q.marks later)) [
        | inl n ↦ absurd (no_parser q' (rw (n, rewind) at e))
        | inr (l, h) ↦
            let same = some-eq (rw (h, rewind) at e) in
            rw (← same) (
              captured,
              get_elem?-take (remove later q.marks) idx later _ b
                  (get_elem?-remove q.marks idx later _ b m),
              y,
            )
      ]

  Marked-commit :
      (idx later : ℕ) (p q q' : Parser)
      → idx < later
      → commit later q ≡ some q'
      → Marked idx p q
      → Marked idx p q'
  unfolding commit
  Marked-commit idx later p q q' b e (captured, m, y) =
      elim (Bool-cases (ltb later (length q.marks))) [
        | inl t ↦
            let same = some-eq (rw (t, commit) at e) in
            rw (← same) (captured, get_elem?-remove q.marks idx later _ b m, y)
        | inr f ↦ absurd (no_parser q' (rw (f, commit) at e))
      ]

  Speculates-Marked :
      (p q : Parser)
      → Speculates chars (length p.marks + 1) (mark p).0 q
      → Marked (length p.marks) p q
  unfolding mark
  Speculates-Marked p _ begins =
      ([], get_elem?-append_right p.marks _ (length p.marks) 0 (omega arith), refl)
  Speculates-Marked p _ (reads q h) =
      Marked-next_token (length p.marks) p q (Speculates-Marked p q h)
  Speculates-Marked p _ (reports q msg h) =
      Marked-add_error (length p.marks) p q msg (Speculates-Marked p q h)
  Speculates-Marked p _ (marks_again q h) =
      Marked-mark (length p.marks) p q (Speculates-Marked p q h)
  Speculates-Marked p _ (rewinds q q' idx b e h) =
      Marked-rewind (length p.marks) idx p q q' (omega (arith, b)) e (Speculates-Marked p q h)
  Speculates-Marked p _ (commits q q' idx b e h) =
      Marked-commit (length p.marks) idx p q q' (omega (arith, b)) e (Speculates-Marked p q h)

  -- The first parser has the same tokens to come as the second one, some of them buffered.
  record Like (q p : Parser) : Type 0 where
    cur_eq : q.cur ≡ p.cur
    peek_eq : q.peek ≡ p.peek
    extra : List Token
    buf_eq : q.buf ≡ p.buf ++ extra
    yields : Yields p.lexer extra q.lexer

  Like-next_token : (q p : Parser) → Like q p → Like (next_token chars q) (next_token chars p)
  unfolding next_token read_token
  Like-next_token q p h = of_buf p.buf refl h.extra h.buf_eq h.yields
    where
      of_buf :
          (buf : List Token)
          → p.buf ≡ buf
          → (extra : List Token) → q.buf ≡ p.buf ++ extra
          → Yields p.lexer extra q.lexer
          → Like (next_token chars q) (next_token chars p)
      of_buf (tok ∷ buf) e extra b y =
          let b' : q.buf ≡ tok ∷ (buf ++ extra) = b ∙ ap (λ x. x ++ extra) e in
          rw (b', e)
            (record {
              cur_eq = h.peek_eq;
              peek_eq = refl;
              extra = extra;
              buf_eq = refl;
              yields = y;
            })
      of_buf [] e [] b y =
          let b' : q.buf ≡ [] = b ∙ ap (λ x. x ++ []) e in
          rw (b', e, y)
            (record {
              cur_eq = h.peek_eq;
              peek_eq = refl;
              extra = [];
              buf_eq = refl;
              yields = refl;
            })
      of_buf [] e (tok ∷ extra) b (t, y) =
          let b' : q.buf ≡ tok ∷ extra = b ∙ ap (λ x. x ++ tok ∷ extra) e in
          rw (b', e)
            (record { cur_eq = h.peek_eq; peek_eq = t; extra = extra; buf_eq = refl; yields = y })

  Like-ahead : (n : ℕ) (q p : Parser) → Like q p → ahead chars n q ≡ ahead chars n p
  unfolding ahead
  Like-ahead zero q p h = refl
  Like-ahead (suc n) q p h =
      ap (λ tok. tok ∷ ahead chars n (next_token chars q)) h.cur_eq
      ∙ ap (λ toks. p.cur ∷ toks)
          (Like-ahead n (next_token chars q) (next_token chars p) (Like-next_token q p h))

  -- A rewind to a mark that was made while no token was buffered never panics, and restores the tokens to come,
  -- any number of them, whatever tokens were read, errors added and later marks made, rewound to and committed
  -- in between.
  pub ahead-rewind :
      (p q : Parser) (n : ℕ)
      → p.buf ≡ []
      → Speculates chars (length p.marks + 1) (mark p).0 q
      → (q' : Parser) × (rewind (mark p).1 q ≡ some q') × (ahead chars n q' ≡ ahead chars n p)
  unfolding mark rewind
  ahead-rewind p q n e h =
      let (captured, m, y) = Speculates-Marked p q h in
      rw (m, rewind)
        (
          _,
          refl,
          Like-ahead n _ p (record {
            cur_eq = refl;
            peek_eq = refl;
            extra = captured;
            buf_eq = rw e (append-nil captured);
            yields = y;
          }),
        )
