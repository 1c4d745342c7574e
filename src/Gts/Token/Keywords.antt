-- ===== src/Gts/Token/Keywords.antt =====
-- crates/night24-gts/src/lexer/token.rs: the table of keywords and the test for one agree.
use night.Text.{Text, text_eq}
use night.Prelude.{
  some-eq, Bool-cases, Option-cases, ◌≡◌, refl, inl, inr, Bool, true, ◌&&◌, some, List, ◌∷◌, arith,
  [], is_some,
}
use night.Gts.Token.{TokenKind, keywords, lookup_ident, is_keyword}
use night.Gts.Value.{find_text}

abbrev pub all_kinds : (TokenKind → Bool) → List (Text × TokenKind) → Bool
all_kinds p [] = true
all_kinds p ((word, kind) ∷ rows) = p kind && all_kinds p rows

pub find_text-all_kinds :
    (p : TokenKind → Bool) (rows : List (Text × TokenKind)) (word : Text) (kind : TokenKind)
    → all_kinds p rows ≡ true
    → find_text word rows ≡ some kind
    → p kind ≡ true
unfolding find_text
find_text-all_kinds p [] word kind h e = ground arith
find_text-all_kinds p ((key, k) ∷ rows) word kind h e = elim (Bool-cases (text_eq key word)) [
  | inl same ↦ rw (← some-eq (rw same at e)) (ground arith)
  | inr other ↦ find_text-all_kinds p rows word kind (ground arith) (rw other at e)
]

-- A word of the table of `lookup_ident` has a kind that `is_keyword` accepts, and any other word is an
-- identifier, which it does not.
is_keyword-lookup_ident :
    (word : Text) → is_keyword (lookup_ident word) ≡ is_some (find_text word keywords)
unfolding lookup_ident is_keyword
is_keyword-lookup_ident word = elim (Option-cases (find_text word keywords)) [
  | inl n ↦ rw (n, lookup_ident)
  | inr (kind, e) ↦ rw (e, lookup_ident) (find_text-all_kinds is_keyword keywords word kind refl e)
]
