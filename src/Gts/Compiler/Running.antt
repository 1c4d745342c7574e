-- ===== src/Gts/Compiler/Running.antt =====
-- crates/night24-gts/src/bytecode/interp.rs: the machine on the code of an expression.
use night.Gts.Compiler.Branches.{and-Agrees, or-Agrees, nullish-Agrees, ternary-Agrees}
use night.Gts.Compiler.{unary_table, binary_table, binary_opcode}
use night.Gts.Compiler.Tables.{
  UnaryRow, StrictRow, find_text-EachRow, unary_table-UnaryRow, binary_table-StrictRow,
}
use night.Gts.Compiler.Agreement.{
  Agrees, literal-Agrees, name-Agrees, delete-Agrees, void-Agrees, prefix-Agrees, infix-Agrees,
}
use night.Gts.Ast.{Expr}
use night.Gts.Interp.{Machine, Step}
use night.Gts.Opcode.{Opcode}
use night.Gts.Value.{Floats, Heap}
use night.Gts.Chunk.{Chunk}
use night.Prelude.{ℕ, ◌+◌}
use night.Gts.Compiler.Layout.{
  Laid, of_literal, of_name, of_delete, of_void, of_prefix, of_infix, of_and, of_or, of_nullish,
  of_ternary,
}

module _ (c : Chunk) (floats : Floats) (heap : Heap)
    (others : Chunk → Opcode → Machine → Step) where
  -- Where the code of an expression stands, the machine does what the tree-walker does.
  pub Laid-Agrees : (e : Expr) (p q : ℕ) → Laid c e p q → Agrees c floats heap others e p q
  unfolding binary_opcode
  Laid-Agrees _ _ _ (of_literal e v p known k) = literal-Agrees c floats heap others e v p known k
  Laid-Agrees _ _ _ (of_name i p k) = name-Agrees c floats heap others i p k
  Laid-Agrees _ _ _ (of_delete pos e p m h pop k) =
      delete-Agrees c floats heap others pos e p m (Laid-Agrees e p m h) pop k
  Laid-Agrees _ _ _ (of_void pos e p m h pop k) =
      void-Agrees c floats heap others pos e p m (Laid-Agrees e p m h) pop k
  Laid-Agrees _ _ _ (of_prefix pos op oc e p m known h code) =
      prefix-Agrees c floats heap others pos op oc e p m
        (find_text-EachRow UnaryRow unary_table op oc unary_table-UnaryRow known)
        (Laid-Agrees e p m h) code
  Laid-Agrees _ _ _ (of_infix pos op oc l r p m n known h k code) =
      infix-Agrees c floats heap others pos op oc l r p m n known
        (find_text-EachRow StrictRow binary_table op oc binary_table-StrictRow known)
        (Laid-Agrees l p m h) (Laid-Agrees r m n k) code
  Laid-Agrees _ _ _ (of_and pos l r p m q h dup jump pop k) =
      and-Agrees c floats heap others pos l r p m q (Laid-Agrees l p m h) dup jump pop
        (Laid-Agrees r (m + 7) q k)
  Laid-Agrees _ _ _ (of_or pos l r p m q h dup jump skip pop k) =
      or-Agrees c floats heap others pos l r p m q (Laid-Agrees l p m h) dup jump skip pop
        (Laid-Agrees r (m + 12) q k)
  Laid-Agrees _ _ _ (of_nullish pos l r p m q h first second skip pop k) =
      nullish-Agrees c floats heap others pos l r p m q (Laid-Agrees l p m h) first second skip pop
        (Laid-Agrees r (m + 26) q k)
  Laid-Agrees _ _ _ (of_ternary pos cond consequent alternate p m n q h jump k skip l) =
      ternary-Agrees c floats heap others pos cond consequent alternate p m n q
        (Laid-Agrees cond p m h) jump (Laid-Agrees consequent (m + 5) n k) skip
        (Laid-Agrees alternate (n + 5) q l)
