-- ===== src/Gts/Interp/Runs.antt =====
-- crates/night24-gts/src/bytecode/interp.rs: runs of the machine, and what one instruction does where
-- its bytes stand in the code.
-- These bytes stand at an address of the code.
use night.Gts.Opcode.Decode.{from_byte_iff}
use night.Gts.Environment.{Env}
use night.Gts.Interp.{Machine, Step, step, goes_on, decoded, execute}
use night.Gts.Opcode.{Opcode, to_byte}
use night.Gts.Value.{Floats, Heap, Fault}
use night.Gts.Chunk.{Chunk, read_u16, read_u32, be_bytes, Object, position_at}
use night.Prelude.{
  length, get_elem?, get_elem?-append_right, get_elem?-kept, ℕ, ◌+◌, ◌/◌, ◌%◌, ◌^◌, ◌<◌, ◌≡◌, refl,
  ap, ◌∙◌, subst, some, List, ◌∷◌, ◌++◌, arith, [], Result, ok, err,
}

abbrev pub HasCode : List ℕ → ℕ → List ℕ → Type 0
HasCode code p k = (i b : ℕ) → get_elem? k i ≡ some b → get_elem? code (p + i) ≡ some b

pub HasCode-left :
    (code : List ℕ) (p : ℕ) (k l : List ℕ) → HasCode code p (k ++ l) → HasCode code p k
HasCode-left code p k l h i b e = h i b (get_elem?-kept k l i b e)

pub HasCode-right :
    (code : List ℕ) (p q : ℕ) (k l : List ℕ)
    → q ≡ p + length k
    → HasCode code p (k ++ l)
    → HasCode code q l
HasCode-right code p q k l at h i b e =
    subst (λ n. get_elem? code n ≡ some b) (omega arith)
      (h (length k + i) b (get_elem?-append_right k l (length k + i) i refl ∙ e))

pub HasCode-tail :
    (code : List ℕ) (p b : ℕ) (k : List ℕ) → HasCode code p (b ∷ k) → HasCode code (p + 1) k
HasCode-tail code p b k h = HasCode-right code p (p + 1) (b ∷ []) k (omega arith) h

pub HasCode-head :
    (code : List ℕ) (p b : ℕ) (k : List ℕ) → HasCode code p (b ∷ k) → get_elem? code p ≡ some b
HasCode-head code p b k h = subst (λ n. get_elem? code n ≡ some b) (omega arith) (h 0 b refl)

pub HasCode-whole : (k l : List ℕ) → HasCode (k ++ l) (length k) l
HasCode-whole k l i b e = get_elem?-append_right k l (length k + i) i refl ∙ e

abbrev pub u16_bytes : ℕ → List ℕ
u16_bytes v = (v / 2 ^ 8 % 256) ∷ (v % 256) ∷ []

module _ (c : Chunk) where
  pub read_u16-at : (p v : ℕ) → v < 2 ^ 16 → HasCode c.code p (u16_bytes v) → read_u16 c p ≡ some v
  unfolding read_u16
  read_u16-at p v lt h =
      rw (HasCode-head c.code p (v / 2 ^ 8 % 256) (v % 256 ∷ []) h, h 1 (v % 256) refl)
        (ap some (omega arith))

  pub read_u32-at : (p v : ℕ) → v < 2 ^ 32 → HasCode c.code p (be_bytes v) → read_u32 c p ≡ some v
  unfolding read_u32
  read_u32-at p v lt h =
      let first : get_elem? c.code p ≡ some (v / 2 ^ 24 % 256) =
        subst (λ n. get_elem? c.code n ≡ some (v / 2 ^ 24 % 256)) (omega arith)
          (h 0 (v / 2 ^ 24 % 256) refl) in
      rw (first, h 1 (v / 2 ^ 16 % 256) refl, h 2 (v / 2 ^ 8 % 256) refl, h 3 (v % 256) refl)
        (ap some (omega arith))

  module _ (floats : Floats) (heap : Heap) (others : Chunk → Opcode → Machine → Step) where
    abbrev pub at : ℕ → List Object → Env → Machine
    at p stack env = record { ip = p; stack = stack; env = env }

    abbrev pub steps : Machine → Step
    steps m = step c floats heap others m

    -- Any number of steps that go on.
    pub data Reaches : Machine → Machine → Type 0 where
      here : (m : Machine) → Reaches m m
      next : (m m' m'' : Machine) → steps m ≡ ok (goes_on m') → Reaches m' m'' → Reaches m m''

    pub Reaches-trans : (a b d : Machine) → Reaches a b → Reaches b d → Reaches a d
    Reaches-trans a b d (here _) k = k
    Reaches-trans a b d (next _ m' _ e r) k = next a m' d e (Reaches-trans m' b d r k)

    pub one_step : (m m' : Machine) → steps m ≡ ok (goes_on m') → Reaches m m'
    one_step m m' e = next m m' m' e (here m')

    -- From an address and a stack, this result: its value is pushed on a base at another address, or
    -- the machine stops with a fault that has the same message. The environment stays.
    unfoldable pub Computes : ℕ → List Object → ℕ → List Object → Env → Result Object Fault → Type 0
    Computes p stack q base env (ok v) = Reaches (at p stack env) (at q (v ∷ base) env)
    Computes p stack q base env (err e) =
        (m : Machine) × (f : Fault) × Reaches (at p stack env) m
        × (steps m ≡ err f)
        × (f.message ≡ e.message)
        × (m.env ≡ env)

    pub Computes-after :
        (p p' q : ℕ) (stack stack' base : List Object) (env : Env) (r : Result Object Fault)
        → Reaches (at p stack env) (at p' stack' env)
        → Computes p' stack' q base env r
        → Computes p stack q base env r
    unfolding Computes
    Computes-after p p' q stack stack' base env (ok v) go k = Reaches-trans _ _ _ go k
    Computes-after p p' q stack stack' base env (err e) go (m, f, k, stops, same, kept) =
        (m, f, Reaches-trans _ _ _ go k, stops, same, kept)

    pub step-execute :
        (p : ℕ) (op : Opcode) (stack : List Object) (env : Env)
        → get_elem? c.code p ≡ some (to_byte op)
        → steps (at p stack env)
          ≡ execute c floats heap others op (position_at c p) (at (p + 1) stack env)
    unfolding step decoded
    step-execute p op stack env h =
        rw (h, (from_byte_iff (to_byte op) op).1 refl, step, decoded) refl
