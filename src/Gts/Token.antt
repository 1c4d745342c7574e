-- ===== src/Gts/Token.antt =====
-- crates/night24-gts/src/lexer/token.rs: the kinds of tokens. A keyword's kind has the prefix `kw`.
pub mod Keywords
use night.Prelude.{ℕ, Bool, true, false, Option, none, some, List, ◌∷◌, []}
use night.Gts.Value.{find_text}
use night.Text.{Text, lit}

pub data TokenKind : Type 0 where
  ident_token number_token string_token template_token regexp_token kw_let kw_const : TokenKind
  kw_var kw_function kw_class kw_extends kw_if kw_else kw_while kw_for kw_in kw_of : TokenKind
  kw_return kw_break kw_continue kw_true kw_false kw_null kw_undefined kw_new kw_this : TokenKind
  kw_super kw_try kw_catch kw_finally kw_throw kw_async kw_await kw_import kw_export : TokenKind
  kw_from kw_as kw_delete kw_typeof kw_instanceof kw_void kw_static kw_match kw_default : TokenKind
  plus minus star slash percent bang amp pipe caret tilde question colon dot plus_plus : TokenKind
  minus_minus pow eq eq_eq_eq neq_eq lt lt_eq gt gt_eq and_and or_or qm_qm arrow : TokenKind
  ellipsis dot_dot dot_dot_eq qm_dot plus_eq minus_eq star_eq slash_eq percent_eq : TokenKind
  pow_eq l_shift r_shift ur_shift l_shift_eq r_shift_eq ur_shift_eq amp_eq pipe_eq : TokenKind
  caret_eq l_paren r_paren l_brace r_brace l_brack r_brack comma semi eof illegal : TokenKind

pub record Token : Type 0 where
  pub kind : TokenKind
  pub literal : Text
  pub line : ℕ
  pub column : ℕ
  pub offset : ℕ

abbrev pub keywords : List (Text × TokenKind)
keywords =
    (lit "let", kw_let)
    ∷ (lit "const", kw_const)
    ∷ (lit "var", kw_var)
    ∷ (lit "function", kw_function)
    ∷ (lit "class", kw_class)
    ∷ (lit "extends", kw_extends)
    ∷ (lit "if", kw_if)
    ∷ (lit "else", kw_else)
    ∷ (lit "while", kw_while)
    ∷ (lit "for", kw_for)
    ∷ (lit "in", kw_in)
    ∷ (lit "of", kw_of)
    ∷ (lit "return", kw_return)
    ∷ (lit "break", kw_break)
    ∷ (lit "continue", kw_continue)
    ∷ (lit "true", kw_true)
    ∷ (lit "false", kw_false)
    ∷ (lit "null", kw_null)
    ∷ (lit "undefined", kw_undefined)
    ∷ (lit "new", kw_new)
    ∷ (lit "this", kw_this)
    ∷ (lit "super", kw_super)
    ∷ (lit "try", kw_try)
    ∷ (lit "catch", kw_catch)
    ∷ (lit "finally", kw_finally)
    ∷ (lit "throw", kw_throw)
    ∷ (lit "async", kw_async)
    ∷ (lit "await", kw_await)
    ∷ (lit "import", kw_import)
    ∷ (lit "export", kw_export)
    ∷ (lit "from", kw_from)
    ∷ (lit "as", kw_as)
    ∷ (lit "delete", kw_delete)
    ∷ (lit "typeof", kw_typeof)
    ∷ (lit "instanceof", kw_instanceof)
    ∷ (lit "void", kw_void)
    ∷ (lit "static", kw_static)
    ∷ (lit "match", kw_match)
    ∷ (lit "default", kw_default)
    ∷ []

abbrev or_ident : Option TokenKind → TokenKind
or_ident none = ident_token
or_ident (some k) = k

unfoldable pub lookup_ident : Text → TokenKind
lookup_ident ident = or_ident (find_text ident keywords)

unfoldable pub is_keyword : TokenKind → Bool
is_keyword kw_let = true
is_keyword kw_const = true
is_keyword kw_var = true
is_keyword kw_function = true
is_keyword kw_class = true
is_keyword kw_extends = true
is_keyword kw_if = true
is_keyword kw_else = true
is_keyword kw_while = true
is_keyword kw_for = true
is_keyword kw_in = true
is_keyword kw_of = true
is_keyword kw_return = true
is_keyword kw_break = true
is_keyword kw_continue = true
is_keyword kw_true = true
is_keyword kw_false = true
is_keyword kw_null = true
is_keyword kw_undefined = true
is_keyword kw_new = true
is_keyword kw_this = true
is_keyword kw_super = true
is_keyword kw_try = true
is_keyword kw_catch = true
is_keyword kw_finally = true
is_keyword kw_throw = true
is_keyword kw_async = true
is_keyword kw_await = true
is_keyword kw_import = true
is_keyword kw_export = true
is_keyword kw_from = true
is_keyword kw_as = true
is_keyword kw_delete = true
is_keyword kw_typeof = true
is_keyword kw_instanceof = true
is_keyword kw_void = true
is_keyword kw_static = true
is_keyword kw_match = true
is_keyword kw_default = true
is_keyword _ = false
